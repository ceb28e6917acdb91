-- ===== src/Refresh/Lookups.antt =====
-- What the statements of Store change of one node and its sources.
use bagualu.Base.{
  String, ◌≡◌, refl, inl, inr, true, false, some, List, [], ◌∷◌, arith, ◌==◌, nat_eq, string_eq,
  str_eq_iff, Bool-cases,
}
use bagualu.Refresh.Import.{has}
use bagualu.Refresh.Store.{
  NodeStatus, Node, NodeSource, find_in, put_node, set_status_in, put_source, ids_by_upstream,
  sources_of, without_source,
}

pub find-put_other :
    (i : String) (n : Node) (l : List Node)
    → (n.id == i) ≡ false
    → find_in i (put_node n l) ≡ find_in i l
unfolding find_in put_node
find-put_other i n [] h = rw h refl
find-put_other i n (m ∷ l) h =
    ground
      (arith, find-put_other i n l h, str_eq_iff m.id n.id, str_eq_iff m.id i, str_eq_iff n.id i)

pub find-put_self :
    (i : String) (n : Node) (l : List Node)
    → (n.id == i) ≡ true
    → (m : Node) × (find_in i (put_node n l) ≡ some m) × (m.status ≡ n.status)
unfolding find_in put_node
find-put_self i n [] h = (n, rw h refl, refl)
find-put_self i n (m ∷ l) h = elim (Bool-cases (m.id == n.id)) [
  | inl e ↦ (record n { created_at = m.created_at }, ground arith, refl)
  | inr e ↦
      let later = find-put_self i n l h in
      (
        later.0,
        ground (arith, later.1, str_eq_iff m.id n.id, str_eq_iff m.id i, str_eq_iff n.id i),
        later.2,
      )
]

pub find-set_status_other :
    (i j : String) (status : NodeStatus) (l : List Node)
    → (j == i) ≡ false
    → find_in i (set_status_in j status l) ≡ find_in i l
unfolding find_in set_status_in
find-set_status_other i j status [] h = refl
find-set_status_other i j status (m ∷ l) h = ground (
  arith,
  find-set_status_other i j status l h,
  str_eq_iff m.id j,
  str_eq_iff m.id i,
  str_eq_iff j i,
)

pub sources_of-put_other :
    (i : String) (source : NodeSource) (l : List NodeSource)
    → (source.node_id == i) ≡ false
    → sources_of i (put_source source l) ≡ sources_of i l
unfolding sources_of put_source
sources_of-put_other i source [] h = rw h refl
sources_of-put_other i source (old ∷ l) h = ground (
  arith,
  sources_of-put_other i source l h,
  str_eq_iff old.node_id source.node_id,
  str_eq_iff old.node_id i,
  str_eq_iff source.node_id i,
)

pub sources_of-without_nil :
    (i j u : String) (l : List NodeSource)
    → sources_of i l ≡ []
    → sources_of i (without_source j u l) ≡ []
unfolding sources_of without_source
sources_of-without_nil i j u [] h = refl
sources_of-without_nil i j u (source ∷ l) h = ground (arith, sources_of-without_nil i j u l)

-- A node without sources is not among those of an upstream.
pub has-ids_by_upstream :
    (i u : String) (l : List NodeSource) → sources_of i l ≡ [] → has i (ids_by_upstream u l) ≡ false
unfolding has ids_by_upstream sources_of
has-ids_by_upstream i u [] h = refl
has-ids_by_upstream i u (source ∷ l) h = ground (arith, has-ids_by_upstream i u l)
