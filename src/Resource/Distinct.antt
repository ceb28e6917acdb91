-- ===== src/Resource/Distinct.antt =====
-- OnePerEndpointIP and Limit of internal/modules/resource/filter.go.
use mathlib.Core.Bool.{true}
use bagualu.Base.{
  ℕ, zero, suc, ◌≤◌, String, ◌≡◌, refl, ◌≢◌, ◌⊎◌, inl, inr, Bool, true, false, not, ◌&&◌, ◌||◌,
  List, [], ◌∷◌, arith, ltb, ◌==◌, nat_eq, string_eq, str_eq_iff, if◌then◌else◌, Bool-cases, length,
  take, length-take, All,
}
use bagualu.Base.Sort.{stable_sort}
use bagualu.Resource.{
  Floats, Filter, Node, Score, SkipReason, judge_all, unique_ips, passed, limited,
  select_with_reasons, less, has_text,
}

module _ {F : Type 0} where
  abbrev pub Avoids : String → List (Node F × Score F) → Type 0
  Avoids key l = All (λ x. x.0.endpoint_ip ≢ key) l

  -- No two of the nodes share an endpoint IP that is known.
  abbrev pub Distinct : List (Node F × Score F) → Type 0
  Distinct [] = Unit
  Distinct (x ∷ l) = ((x.0.endpoint_ip ≡ "") ⊎ Avoids x.0.endpoint_ip l) × Distinct l

  abbrev known_in : List String → Node F × Score F → Bool
  known_in seen n = not (n.0.endpoint_ip == "") && has_text n.0.endpoint_ip seen

  abbrev next_seen : List String → Node F × Score F → List String
  next_seen seen n =
      if (n.0.endpoint_ip == "") || known_in seen n then seen else n.0.endpoint_ip ∷ seen

  next_seen-keeps :
      (key : String) (seen : List String) (n : Node F × Score F)
      → has_text key seen ≡ true
      → has_text key (next_seen seen n) ≡ true
  unfolding has_text
  next_seen-keeps key seen n h = elim (Bool-cases ((n.0.endpoint_ip == "") || known_in seen n)) [
    | inl e ↦ simp e h
    | inr e ↦ simp e (ground arith)
  ]

  passed-Avoids :
      (b : Bool) (n : Node F × Score F) (acc : List (Node F × Score F) × List SkipReason)
      (key : String)
      → (b ≡ true) ⊎ (n.0.endpoint_ip ≢ key)
      → Avoids key acc.0
      → Avoids key (passed b n acc).0
  unfolding passed
  passed-Avoids true n acc key h rest = rest
  passed-Avoids false n acc key (inl e) rest = absurd (cc e)
  passed-Avoids false n acc key (inr differs) rest = (differs, rest)

  known-differs :
      (key : String) (seen : List String) (n : Node F × Score F)
      → key ≢ ""
      → has_text key seen ≡ true
      → (known_in seen n ≡ true) ⊎ (n.0.endpoint_ip ≢ key)
  known-differs key seen n named h = elim (Bool-cases (known_in seen n)) [
    | inl e ↦ inl e
    | inr e ↦ inr (λ same.
        let unknown : known_in seen n ≡ false = e in
        let at_key = rw same at unknown in let iff = str_eq_iff key "" in absurd (ground arith))
  ]

  unique_ips-Avoids :
      (l : List (Node F × Score F)) (key : String) (seen : List String)
      → key ≢ ""
      → has_text key seen ≡ true
      → Avoids key (unique_ips seen l).0
  unfolding unique_ips
  unique_ips-Avoids [] key seen named h = tt
  unique_ips-Avoids (n ∷ ns) key seen named h =
      passed-Avoids (known_in seen n) n (unique_ips (next_seen seen n) ns) key
        (known-differs key seen n named h)
        (unique_ips-Avoids ns key (next_seen seen n) named (next_seen-keeps key seen n h))

  passed-Distinct :
      (b : Bool) (n : Node F × Score F) (acc : List (Node F × Score F) × List SkipReason)
      → (b ≡ true) ⊎ ((n.0.endpoint_ip ≡ "") ⊎ Avoids n.0.endpoint_ip acc.0)
      → Distinct acc.0
      → Distinct (passed b n acc).0
  unfolding passed
  passed-Distinct true n acc h rest = rest
  passed-Distinct false n acc (inl e) rest = absurd (cc e)
  passed-Distinct false n acc (inr alone) rest = (alone, rest)

  next_seen-has :
      (seen : List String) (n : Node F × Score F)
      → (n.0.endpoint_ip == "") ≡ false
      → known_in seen n ≡ false
      → has_text n.0.endpoint_ip (next_seen seen n) ≡ true
  unfolding has_text
  next_seen-has seen n named e =
      let iff = str_eq_iff n.0.endpoint_ip n.0.endpoint_ip in simp named (ground arith)

  known-alone :
      (seen : List String) (n : Node F × Score F) (ns : List (Node F × Score F))
      → (known_in seen n ≡ true)
        ⊎ ((n.0.endpoint_ip ≡ "") ⊎ Avoids n.0.endpoint_ip (unique_ips (next_seen seen n) ns).0)
  known-alone seen n ns = elim (Bool-cases (known_in seen n)) [
    | inl e ↦ inl e
    | inr e ↦ elim (Bool-cases (n.0.endpoint_ip == "")) [
      | inl unnamed ↦ inr (inl ((str_eq_iff n.0.endpoint_ip "").0 unnamed))
      | inr named ↦
          let iff = str_eq_iff n.0.endpoint_ip "" in
          inr (
            inr (
              unique_ips-Avoids ns n.0.endpoint_ip (next_seen seen n)
                (λ same. absurd (ground arith)) (next_seen-has seen n named e)))
    ]
  ]

  unique_ips-Distinct :
      (l : List (Node F × Score F)) (seen : List String) → Distinct (unique_ips seen l).0
  unfolding unique_ips
  unique_ips-Distinct [] seen = tt
  unique_ips-Distinct (n ∷ ns) seen =
      passed-Distinct (known_in seen n) n (unique_ips (next_seen seen n) ns) (known-alone seen n ns)
        (unique_ips-Distinct ns (next_seen seen n))

  take-Avoids :
      (k : ℕ) (key : String) (l : List (Node F × Score F)) → Avoids key l → Avoids key (take k l)
  take-Avoids zero key l h = tt
  take-Avoids (suc k) key [] h = tt
  take-Avoids (suc k) key (x ∷ l) h = (h.0, take-Avoids k key l h.1)

  take-Distinct : (k : ℕ) (l : List (Node F × Score F)) → Distinct l → Distinct (take k l)
  take-Distinct zero l h = tt
  take-Distinct (suc k) [] h = tt
  take-Distinct (suc k) (x ∷ l) h = (
    elim h.0 [
      | inl unnamed ↦ inl unnamed
      | inr avoids ↦ inr (take-Avoids k x.0.endpoint_ip l avoids)
    ],
    take-Distinct k l h.1,
  )

  limited-Distinct : (k : ℕ) (l : List (Node F × Score F)) → Distinct l → Distinct (limited k l).0
  unfolding limited
  limited-Distinct k l h = elim (Bool-cases (ltb 0 k && ltb k (length l))) [
    | inl e ↦ rw e (take-Distinct k l h)
    | inr e ↦ rw e h
  ]

  limited-length : (k : ℕ) (l : List (Node F × Score F)) → (k ≡ 0) ⊎ (length (limited k l).0 ≤ k)
  unfolding limited
  limited-length k l = elim (Bool-cases (ltb 0 k && ltb k (length l))) [
    | inl e ↦ rw e (inr (omega (arith, length-take k l)))
    | inr e ↦ rw e (ground arith)
  ]

-- With OnePerEndpointIP no two selected nodes share an endpoint IP that is known, and with a limit
-- above 0 at most that many nodes are selected.
pub select_with_reasons-bounded :
    {F : Type 0} (fl : Floats F) (f : Filter F) (nodes : List (Node F))
    → ((f.one_per_endpoint_ip ≡ false) ⊎ Distinct (select_with_reasons fl f nodes).0)
      × ((f.limit ≡ 0) ⊎ (length (select_with_reasons fl f nodes).0 ≤ f.limit))
unfolding select_with_reasons
select_with_reasons-bounded fl f nodes =
    let sorted = stable_sort (less fl f) (judge_all fl f nodes).0 in
    elim (Bool-cases f.one_per_endpoint_ip) [
      | inl e ↦ simp e (
        inr (limited-Distinct f.limit _ (unique_ips-Distinct sorted [])),
        limited-length f.limit (unique_ips [] sorted).0,
      )
      | inr e ↦ simp e (inl refl, limited-length f.limit sorted)
    ]
