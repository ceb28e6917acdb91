-- ===== src/Resource/Offered.antt =====
-- What holds of each node that internal/modules/resource/filter.go selects.
use mathlib.Core.Bool.{true}
use bagualu.Base.{
  ℕ, zero, suc, String, ◌≡◌, refl, sym, ap, ◌⊎◌, inl, inr, Bool, true, false, ◌&&◌, Option, none,
  some, List, [], ◌∷◌, arith, ltb, ◌==◌, nat_eq, string_eq, str_eq_iff, Bool-cases, length, take,
  All,
}
use bagualu.Base.Sort.{stable_sort-All}
use bagualu.Resource.{
  Floats, Filter, Node, Score, SkipReason, judge, judge_all, sorted_in, unique_ips, passed, limited,
  select_with_reasons, less, mismatches, lacks_tag, rated, is_low, effective,
}

module _ {F : Type 0} (fl : Floats F) (f : Filter F) where
  -- What the filter asks of a node with its score.
  pub record IsOffered (x : Node F × Score F) : Type 0 where
    pub active : x.0.status ≡ "active"
    pub protocol : (f.protocol ≡ "") ⊎ (x.0.protocol ≡ f.protocol)
    pub region : (f.region ≡ "") ⊎ (x.0.region ≡ f.region)
    pub tag : lacks_tag fl f x.0 ≡ false
    pub scored : x.0.score ≡ some x.1
    pub recommended : x.1.status ≡ "recommended"
    pub high : fl.lt x.1.overall (effective fl f) ≡ false

  rated-cases :
      (o : Option (Score F)) (s : Score F)
      → rated fl f o ≡ inl s
      → (o ≡ some s) × (is_low fl f s ≡ false)
  rated-cases none s = λ e. absurd (cc e)
  rated-cases (some t) s = elim (Bool-cases (is_low fl f t)) [
    | inl low ↦ rw low (λ e. absurd (cc e))
    | inr high ↦ rw high (λ e. let same : t ≡ s = cc e in (ap some same, rw (sym same) high))
  ]

  judge-IsOffered : (n : Node F) (s : Score F) → judge fl f n ≡ inl s → IsOffered (n, s)
  unfolding judge
  judge-IsOffered n s = elim (Bool-cases (n.status == "active")) [
    | inr off ↦ rw off (λ e. absurd (cc e))
    | inl on ↦ rw on (elim (Bool-cases (mismatches fl f n)) [
      | inl other ↦ rw other (λ e. absurd (cc e))
      | inr fits ↦ rw fits (elim (Bool-cases (lacks_tag fl f n)) [
        | inl lacks ↦ rw lacks (λ e. absurd (cc e))
        | inr has ↦ rw has (λ e.
            let r = rated-cases n.score s e in
            let p1 = str_eq_iff f.protocol "" in
            let p2 = str_eq_iff n.protocol f.protocol in
            let r1 = str_eq_iff f.region "" in
            let r2 = str_eq_iff n.region f.region in
            let s1 = str_eq_iff s.status "recommended" in
            record {
              active = (str_eq_iff n.status "active").0 on;
              protocol = ground arith;
              region = ground arith;
              tag = has;
              scored = r.0;
              recommended = ground arith;
              high = ground arith;
            })
      ])
    ])
  ]

  sorted_in-All :
      (n : Node F) (v : Score F ⊎ String) (acc : List (Node F × Score F) × List SkipReason)
      → judge fl f n ≡ v
      → All IsOffered acc.0
      → All IsOffered (sorted_in n v acc).0
  unfolding sorted_in
  sorted_in-All n (inl s) acc e each = (judge-IsOffered n s e, each)
  sorted_in-All n (inr reason) acc e each = each

  judge_all-All : (ns : List (Node F)) → All IsOffered (judge_all fl f ns).0
  unfolding judge_all
  judge_all-All [] = tt
  judge_all-All (n ∷ ns) =
      sorted_in-All n (judge fl f n) (judge_all fl f ns) refl (judge_all-All ns)

module _ {F : Type 0} (P : Node F × Score F → Type 0) where
  passed-All :
      (b : Bool) (n : Node F × Score F) (acc : List (Node F × Score F) × List SkipReason)
      → P n
      → All P acc.0
      → All P (passed b n acc).0
  unfolding passed
  passed-All true n acc pn each = each
  passed-All false n acc pn each = (pn, each)

  unique_ips-All :
      (l : List (Node F × Score F)) (seen : List String) → All P l → All P (unique_ips seen l).0
  unfolding unique_ips
  unique_ips-All [] seen each = tt
  unique_ips-All (n ∷ ns) seen each =
      passed-All _ n (unique_ips _ ns) each.0 (unique_ips-All ns _ each.1)

  take-All : (k : ℕ) (l : List (Node F × Score F)) → All P l → All P (take k l)
  take-All zero l each = tt
  take-All (suc k) [] each = tt
  take-All (suc k) (x ∷ l) each = (each.0, take-All k l each.1)

  limited-All : (k : ℕ) (l : List (Node F × Score F)) → All P l → All P (limited k l).0
  unfolding limited
  limited-All k l each = elim (Bool-cases (ltb 0 k && ltb k (length l))) [
    | inl e ↦ rw e (take-All k l each)
    | inr e ↦ rw e each
  ]

-- Each selected node is active, has the protocol and the region that the filter names, if it names
-- any, has the tag in its name, and has a score that is recommended and not below the minimum,
-- which counts as 60 where the filter's is smaller.
pub select_with_reasons-IsOffered :
    {F : Type 0} (fl : Floats F) (f : Filter F) (nodes : List (Node F))
    → All (IsOffered fl f) (select_with_reasons fl f nodes).0
unfolding select_with_reasons
select_with_reasons-IsOffered fl f nodes =
    let sorted = stable_sort-All (less fl f) (IsOffered fl f) _ (judge_all-All fl f nodes) in
    elim (Bool-cases f.one_per_endpoint_ip) [
      | inl e ↦
          simp e
            (limited-All (IsOffered fl f) f.limit _ (unique_ips-All (IsOffered fl f) _ [] sorted))
      | inr e ↦ simp e (limited-All (IsOffered fl f) f.limit _ sorted)
    ]
