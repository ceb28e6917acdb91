-- ===== src/Refresh/Listed.antt =====
-- Under which IDs the first loop of UpstreamRefresher.Refresh
-- (internal/application/upstream_refresh.go) stores the parsed nodes.

use bagualu.Base.{
  ℕ, String, ◌≡◌, refl, ◌∙◌, inl, inr, true, Option, none, some, List, [], ◌∷◌, arith, ◌==◌, nat_eq,
  string_eq, str_eq_iff, Bool-cases, Option-cases,
}
use bagualu.Refresh.Import.{
  Env, has, lookup_node, lookup_sources, is_previous_of, find_previous, Import, Step, renamed,
  adopted, owned, known_node, identify, is_disabled, keep_disabled, prepare_node, ok, fail,
}
use bagualu.Refresh.Store.{Node, NodeSource, Store, find_in, find_node, put_node}
use bagualu.Refresh.Linked.{linked}

-- What a node keeps of the parsed one from which it was made.
abbrev pub SameContent : Node → Node → Type 0
SameContent node x =
    (x.name ≡ node.name)
    × (x.protocol ≡ node.protocol)
    × (x.address ≡ node.address)
    × (x.port ≡ node.port)
    × (x.raw_config ≡ node.raw_config)

-- A node is stored under an ID.
abbrev pub IsStored : Node → String → Store → Type 0
IsStored node i s = (x : Node) × (find_node i s ≡ some x) × SameContent node x

-- The IDs that a parsed node may get: its own, one that the upstream had in the store `s`, or a new
-- one.
pub data IsIdOf (env : Env) (u : String) (s : Store) (node : Node) : String → Type 0 where
  own : IsIdOf env u s node node.id
  linked_before : (i : String) → linked i u s.sources ≡ true → IsIdOf env u s node i
  fresh : (n : ℕ) → IsIdOf env u s node (env.uuid n)

same : (node : Node) → SameContent node node
same node = (refl, refl, refl, refl, refl)

pub chained : (a b c : Node) → SameContent a b → SameContent b c → SameContent a c
chained a b c (n, p, d, o, r) (n', p', d', o', r') = (n' ∙ n, p' ∙ p, d' ∙ d, o' ∙ o, r' ∙ r)

pub find-put_content :
    (i : String) (n : Node) (l : List Node)
    → (n.id == i) ≡ true
    → (m : Node) × (find_in i (put_node n l) ≡ some m) × SameContent n m
unfolding find_in put_node
find-put_content i n [] h = (n, rw h refl, same n)
find-put_content i n (m ∷ l) h = elim (Bool-cases (m.id == n.id)) [
  | inl e ↦ (record n { created_at = m.created_at }, ground arith, same n)
  | inr e ↦
      let later = find-put_content i n l h in
      (
        later.0,
        ground (arith, later.1, str_eq_iff m.id n.id, str_eq_iff m.id i, str_eq_iff n.id i),
        later.2,
      )
]

module _ (env : Env) (u url : String) (previous : List String) where
  pub prepare_node-same :
      (node : Node) (s : Store) → SameContent node (prepare_node env u url previous node s)
  unfolding prepare_node keep_disabled
  prepare_node-same node s = elim (Option-cases (lookup_node env node.id s)) [
    | inl e ↦ rw e (unfold keep_disabled in same node)
    | inr (x, e) ↦ elim (Bool-cases (is_disabled env u url previous x.status)) [
      | inl f ↦ rw (e, f) (same node)
      | inr f ↦ rw (e, f) (same node)
    ]
  ]

  module _ (old : Store)
      (known : (i : String)
        → has i (env.ranged previous) ≡ true
        → linked i u old.sources ≡ true) where
    abbrev IsKnown : List String → Option String → Type 0
    IsKnown ids none = Unit
    IsKnown ids (some j) = has j ids ≡ true

    IsKnown-tail :
        (j : String) (ids : List String) (o : Option String) → IsKnown ids o → IsKnown (j ∷ ids) o
    unfolding has
    IsKnown-tail j ids none h = tt
    IsKnown-tail j ids (some i) h = ground arith

    find_previous-IsKnown :
        (node : Node) (s : Store) (ids : List String) → IsKnown ids (find_previous env u node s ids)
    unfolding find_previous has
    find_previous-IsKnown node s [] = tt
    find_previous-IsKnown node s (j ∷ ids) =
        elim (Bool-cases
          (is_previous_of env u node (lookup_node env j s) (lookup_sources env j s))) [
            | inl e ↦ rw e (rw ((str_eq_iff j j).1 refl) refl)
            | inr e ↦ rw e (IsKnown-tail j ids _ (find_previous-IsKnown node s ids))
          ]

    -- The node that is to be saved for a parsed one.
    abbrev pub Stands : Node → Step (Node × ℕ) → Type 0
    Stands node (fail e t) = Unit
    Stands node (ok (n, made)) = IsIdOf env u old node n.id × SameContent node n

    renamed-Stands :
        (node : Node) (o : Option String) (made : ℕ)
        → IsKnown (env.ranged previous) o
        → Stands node (ok (renamed env u url previous node o made))
    unfolding renamed
    renamed-Stands node (some j) made h = (linked_before j (known j h), same node)
    renamed-Stands node none made h = (fresh made, same node)

    owned-Stands :
        (node existing : Node) (im : Import) (o : Option (List NodeSource))
        → Stands node (owned env u url previous node existing im o)
    unfolding owned
    owned-Stands node existing im none = tt
    owned-Stands node existing im (some []) =
        renamed-Stands node _ im.made (find_previous-IsKnown node im.store (env.ranged previous))
    owned-Stands node existing im (some (source ∷ l)) = (own, same node)

    adopted-Stands :
        (node : Node) (o : Option String) (made : ℕ)
        → IsKnown (env.ranged previous) o
        → Stands node (ok (adopted env u url previous node o, made))
    unfolding adopted
    adopted-Stands node (some j) made h = (linked_before j (known j h), same node)
    adopted-Stands node none made h = (own, same node)

    known_node-Stands :
        (node : Node) (im : Import) (o : Option Node)
        → Stands node (known_node env u url previous node im o)
    unfolding known_node
    known_node-Stands node im none =
        adopted-Stands node _ im.made (find_previous-IsKnown node im.store (env.ranged previous))
    known_node-Stands node im (some existing) = owned-Stands node existing im _

    pub identify-Stands :
        (node : Node) (im : Import) → Stands node (identify env u url previous node im)
    unfolding identify
    identify-Stands node im = known_node-Stands node im _
