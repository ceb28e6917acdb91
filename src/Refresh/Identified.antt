-- ===== src/Refresh/Identified.antt =====
-- The ID that UpstreamRefresher.Refresh (internal/application/upstream_refresh.go) gives to a parsed
-- node is not that of a node which came from no upstream.
use bagualu.Base.{
  ℕ, String, ◌≡◌, refl, ◌⊎◌, inl, inr, Bool, true, false, ◌&&◌, Option, none, some, List, [], ◌∷◌,
  arith, ◌==◌, nat_eq, string_eq, str_eq_iff, Bool-cases,
}
use bagualu.Refresh.Import.{
  Env, lookup_node, lookup_sources, same_identity, any_source, is_previous_of, find_previous,
  Import, Step, renamed, adopted, owned, known_node, identify, ok, fail,
}
use bagualu.Refresh.Store.{Node, NodeSource, Store, find_node, sources_of}

abbrev pub IsManual : String → Node → Store → Type 0
IsManual i node s = (find_node i s ≡ some node) × (sources_of i s.sources ≡ [])

and-false : (b : Bool) → (b && false) ≡ false
and-false true = refl
and-false false = refl

pub other_key : (j i : String) → ¬ (j ≡ i) → (j == i) ≡ false
other_key j i h = elim (Bool-cases (j == i)) [
  | inl e ↦ absurd (h ((str_eq_iff j i).0 e))
  | inr e ↦ e
]

no_sources :
    (source : NodeSource) (l : List NodeSource)
    → ¬ (
        (◌≡◌ {A = Option (List NodeSource)} (some (source ∷ l)) none)
        ⊎ (some (source ∷ l) ≡ some []))
no_sources source l (inl e) = absurd (cc e)
no_sources source l (inr e) = absurd (cc e)

module _ (env : Env) (i : String) (kept : Node) (answers : env.find_fails i ≡ false) where
  abbrev pub Manual : Store → Type 0
  Manual s = IsManual i kept s

  abbrev IsOther : Option String → Type 0
  IsOther none = Unit
  IsOther (some j) = (j == i) ≡ false

  lookup_sources-Manual :
      (s : Store) → Manual s → (lookup_sources env i s ≡ none) ⊎ (lookup_sources env i s ≡ some [])
  unfolding lookup_sources
  lookup_sources-Manual s m = ground arith

  is_previous_of-Manual :
      (u : String) (candidate : Node) (s : Store)
      → Manual s
      → is_previous_of env u candidate (lookup_node env i s) (lookup_sources env i s) ≡ false
  unfolding is_previous_of any_source lookup_node
  is_previous_of-Manual u candidate s m = elim (lookup_sources-Manual s m) [
    | inl e ↦ rw (e, answers, m.0) refl
    | inr e ↦ rw (e, answers, m.0) (and-false (same_identity env kept candidate))
  ]

  find_previous-IsOther :
      (u : String) (candidate : Node) (s : Store) (ids : List String)
      → Manual s
      → IsOther (find_previous env u candidate s ids)
  unfolding find_previous
  find_previous-IsOther u candidate s [] m = tt
  find_previous-IsOther u candidate s (j ∷ ids) m =
      elim (Bool-cases
        (is_previous_of env u candidate (lookup_node env j s) (lookup_sources env j s))) [
          | inl e ↦
              rw e (other_key j i λ same. cc (is_previous_of-Manual u candidate s m, rw same at e))
          | inr e ↦ rw e (find_previous-IsOther u candidate s ids m)
        ]

  -- The ID that a parsed node gets is another one.
  abbrev pub Named : Store → Step (Node × ℕ) → Type 0
  Named s (fail e t) = t ≡ s
  Named s (ok (node, made)) = (node.id == i) ≡ false

  module _ (fresh : (n : ℕ) → (env.uuid n == i) ≡ false) (u url : String)
      (previous : List String) where
    renamed-Named :
        (s : Store) (node : Node) (o : Option String) (made : ℕ)
        → IsOther o
        → Named s (ok (renamed env u url previous node o made))
    unfolding renamed
    renamed-Named s node (some j) made h = h
    renamed-Named s node none made h = fresh made

    adopted-Named :
        (node : Node) (o : Option String)
        → (node.id == i) ≡ false
        → IsOther o
        → ((adopted env u url previous node o).id == i) ≡ false
    unfolding adopted
    adopted-Named node (some j) own h = h
    adopted-Named node none own h = own

    owned-Named :
        (node existing : Node) (im : Import) (o : Option (List NodeSource))
        → Manual im.store
        → ((o ≡ none) ⊎ (o ≡ some [])) ⊎ ((node.id == i) ≡ false)
        → Named im.store (owned env u url previous node existing im o)
    unfolding owned
    owned-Named node existing im none m h = refl
    owned-Named node existing im (some []) m h =
        renamed-Named im.store node _ im.made
          (find_previous-IsOther u node im.store (env.ranged previous) m)
    owned-Named node existing im (some (source ∷ l)) m (inl h) = absurd (no_sources source l h)
    owned-Named node existing im (some (source ∷ l)) m (inr h) = h

    known_node-Named :
        (node : Node) (im : Import) (o : Option Node)
        → Manual im.store
        → ((node.id == i) ≡ false) ⊎ ((o ≡ some kept) × (node.id ≡ i))
        → Named im.store (known_node env u url previous node im o)
    unfolding known_node
    known_node-Named node im none m (inl h) =
        adopted-Named node _ h (find_previous-IsOther u node im.store (env.ranged previous) m)
    known_node-Named node im none m (inr h) = absurd (cc (h.0))
    known_node-Named node im (some existing) m (inl h) = owned-Named node existing im _ m (inr h)
    known_node-Named node im (some existing) m (inr h) =
        owned-Named node existing im _ m (inl (rw (h.1) (lookup_sources-Manual im.store m)))

    pub identify-Named :
        (node : Node) (im : Import)
        → Manual im.store
        → Named im.store (identify env u url previous node im)
    unfolding identify lookup_node
    identify-Named node im m = elim (Bool-cases (node.id == i)) [
      | inl e ↦
          let same = (str_eq_iff node.id i).0 e in
          known_node-Named node im _ m (inr (rw (same, answers) (m.0), same))
      | inr e ↦ known_node-Named node im _ m (inl e)
    ]
