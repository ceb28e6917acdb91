-- ===== src/Refresh/Entered.antt =====
-- What the first loop of UpstreamRefresher.Refresh (internal/application/upstream_refresh.go) has
-- stored for the parsed nodes.
use mathlib.Core.Path.{subst}
use bagualu.Base.{
  ℕ, String, ◌≡◌, refl, sym, ◌∙◌, ◌⊎◌, inl, inr, true, List, [], ◌∷◌, arith, ◌==◌, nat_eq,
  string_eq, str_eq_iff, Bool-cases, All,
}
use bagualu.Refresh.Prepared.{prepare_node-id}
use bagualu.Refresh.Import.{
  Env, has, note, Import, Step, identify, prepare_node, save_imported, identified, import_node,
  next_node, import_all, ok, fail,
}
use bagualu.Refresh.Store.{Node, Store, find_node, save_node, save_source}
use bagualu.Refresh.Linked.{linked, has-note}
use bagualu.Refresh.Lookups.{find-put_other}
use bagualu.Refresh.Listed.{
  SameContent, IsStored, IsIdOf, own, chained, find-put_content, prepare_node-same, Stands,
  identify-Stands,
}

-- A node of a list.
abbrev pub IsAmong : List Node → Node → Type 0
IsAmong [] n = ⊥
IsAmong (m ∷ l) n = (m ≡ n) ⊎ IsAmong l n

pub all_among : (l : List Node) (Q : Node → Type 0) → ((n : Node) → IsAmong l n → Q n) → All Q l
all_among [] Q h = tt
all_among (m ∷ l) Q h = (h m (inl refl), all_among l Q (λ n k. h n (inr k)))

-- Under each ID of `seen` a node of `Q` is stored, which has got that ID.
abbrev pub IsFrom : Env → String → Store → (Node → Type 0) → List String → Store → Type 0
IsFrom env u old Q seen s =
    (i : String)
    → has i seen ≡ true
    → (node : Node) × Q node × IsIdOf env u old node i × IsStored node i s

-- A parsed node has got an ID, which is in `seen`.
abbrev pub HasId : Env → String → Store → List String → Node → Type 0
HasId env u old seen node = (i : String) × (has i seen ≡ true) × IsIdOf env u old node i

abbrev pub Ends : (Import → Type 0) → Step Import → Type 0
Ends P (fail e s) = Unit
Ends P (ok im) = P im

Ends-map :
    (P R : Import → Type 0)
    → ((im : Import) → P im → R im)
    → (step : Step Import) → Ends P step
    → Ends R step
Ends-map P R f (fail e s) h = tt
Ends-map P R f (ok im) h = f im h

All-map : (P R : Node → Type 0) → ((n : Node) → P n → R n) → (l : List Node) → All P l → All R l
All-map P R f [] h = tt
All-map P R f (n ∷ l) h = (f n h.0, All-map P R f l h.1)

module _ (env : Env) (u url : String) (previous : List String) (old : Store)
    (known : (i : String) → has i (env.ranged previous) ≡ true → linked i u old.sources ≡ true)
    (Q : Node → Type 0) where
  abbrev pub Grows : List String → Import → Type 0
  Grows seen im = (i : String) → has i seen ≡ true → has i im.seen ≡ true

  abbrev Entered : Node → List String → Import → Type 0
  Entered node seen im =
      IsFrom env u old Q im.seen im.store × Grows seen im × HasId env u old im.seen node

  has-own : (j : String) (seen : List String) → has j (note j seen) ≡ true
  has-own j seen = rw (has-note j j seen, (str_eq_iff j j).1 refl) refl

  has-older : (i j : String) (seen : List String) → has i seen ≡ true → has i (note j seen) ≡ true
  has-older i j seen h = ground (arith, has-note i j seen)

  put-IsFrom :
      (node x : Node) (s : Store) (seen : List String)
      → IsFrom env u old Q seen s
      → Q node
      → IsIdOf env u old node x.id
      → SameContent node x
      → IsFrom env u old Q (note x.id seen) (save_node x s)
  unfolding save_node find_node
  put-IsFrom node x s seen held q named c i h = elim (Bool-cases (x.id == i)) [
    | inl e ↦
        let (m, f, d) = find-put_content i x s.nodes e in
        (
          node,
          q,
          subst (IsIdOf env u old node) ((str_eq_iff x.id i).0 e) named,
          (m, f, chained node x m c d),
        )
    | inr e ↦
        let before : has i seen ≡ true = ground (arith, has-note i x.id seen) in
        let (n, p, k, (m, f, d)) = held i before in
        (n, p, k, (m, find-put_other i x s.nodes e ∙ f, d))
  ]

  save_imported-Entered :
      (node x : Node) (s : Store) (seen : List String) (made : ℕ)
      → IsFrom env u old Q seen s
      → Q node
      → IsIdOf env u old node x.id
      → SameContent node x
      → Ends (Entered node seen) (
          save_imported env u url previous x
            (record { store = s; seen = note x.id seen; made = made }))
  unfolding save_imported save_source find_node
  save_imported-Entered node x s seen made held q named c =
      elim (Bool-cases (env.save_fails x.id)) [
        | inl e ↦ simp e tt
        | inr e ↦ elim (Bool-cases (env.source_fails x.id)) [
          | inl f ↦ simp (e, f) tt
          | inr f ↦
              simp (e, f)
                (
                  put-IsFrom node x s seen held q named c,
                  (λ i h. has-older i x.id seen h),
                  (x.id, has-own x.id seen, named),
                )
        ]
      ]

  identified-Entered :
      (node : Node) (im : Import) (step : Step (Node × ℕ))
      → IsFrom env u old Q im.seen im.store
      → Q node
      → Stands env u url previous old known node step
      → Ends (Entered node im.seen) (identified env u url previous im step)
  unfolding identified
  identified-Entered node im (fail e t) held q c = tt
  identified-Entered node im (ok (n, made)) held q c =
      let prepared = prepare_node env u url previous n im.store in
      let same_id = prepare_node-id env u url previous n im.store in
      subst
        (λ j. Ends (Entered node im.seen) (
          save_imported env u url previous prepared
            (record { store = im.store; seen = note j im.seen; made = made })))
        same_id
        (save_imported-Entered node prepared im.store im.seen made held q
          (subst (IsIdOf env u old node) (sym same_id) c.0)
          (chained node n prepared c.1 (prepare_node-same env u url previous n im.store)))

  import_node-Entered :
      (node : Node) (im : Import)
      → IsFrom env u old Q im.seen im.store
      → Q node
      → Ends (Entered node im.seen) (import_node env u url previous node im)
  unfolding import_node
  import_node-Entered node im held q = elim (Bool-cases (has node.id im.seen)) [
    | inl e ↦ rw e (held, (λ i h. h), (node.id, e, own))
    | inr e ↦ rw e (
        identified-Entered node im (identify env u url previous node im) held q
          (identify-Stands env u url previous old known node im))
  ]

  abbrev pub AllEntered : List Node → List String → Import → Type 0
  AllEntered nodes seen im =
      IsFrom env u old Q im.seen im.store × Grows seen im × All (HasId env u old im.seen) nodes

  next_node-AllEntered :
      (node : Node) (nodes : List Node) (seen : List String) (again : Import → Step Import)
      (step : Step Import)
      → ((im : Import)
          → IsFrom env u old Q im.seen im.store
          → Ends (AllEntered nodes im.seen) (again im))
      → Ends (Entered node seen) step
      → Ends (AllEntered (node ∷ nodes) seen) (next_node env u url previous again step)
  unfolding next_node
  next_node-AllEntered node nodes seen again (fail e s) later h = tt
  next_node-AllEntered node nodes seen again (ok im) later (held, grown, (i, k, named)) =
      Ends-map (AllEntered nodes im.seen) (AllEntered (node ∷ nodes) seen)
        (λ im' a. (a.0, (λ j m. a.1 j (grown j m)), ((i, a.1 i k, named), a.2))) (again im)
        (later im held)

  pub import_all-AllEntered :
      (nodes : List Node)
      → All Q nodes
      → (im : Import) → IsFrom env u old Q im.seen im.store
      → Ends (AllEntered nodes im.seen) (import_all env u url previous nodes im)
  unfolding import_all
  import_all-AllEntered [] q im held = (held, (λ i h. h), tt)
  import_all-AllEntered (node ∷ nodes) q im held =
      next_node-AllEntered node nodes im.seen (import_all env u url previous nodes)
        (import_node env u url previous node im) (import_all-AllEntered nodes q.1)
        (import_node-Entered node im held q.0)
