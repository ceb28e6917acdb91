-- ===== src/Refresh/Passed.antt =====
-- The second loop of UpstreamRefresher.Refresh (internal/application/upstream_refresh.go) changes no
-- node that was seen.
use bagualu.Base.{
  String, ◌≡◌, refl, ◌∙◌, inl, inr, true, false, not, ◌||◌, Option, none, some, List, [], ◌∷◌, ◌==◌,
  nat_eq, string_eq, str_eq_iff, if◌then◌else◌, Bool-cases,
}
use bagualu.Refresh.Lookups.{find-set_status_other}
use bagualu.Refresh.Keeps.{left_by}
use bagualu.Refresh.Prune.{
  Wired, is_kept, expire_node, clear_node, after_sources, prune_node, next_pruned, prune_all,
}
use bagualu.Refresh.Import.{Env, has, lookup_node, Step, ok, fail}
use bagualu.Refresh.Store.{
  NodeSource, Store, find_node, update_status, delete_source, delete_measurements, expired,
}

module _ (env : Env) (wired : Wired) (u i : String) where
  -- The node is found as before.
  abbrev Same : Store → Store → Type 0
  Same s t = find_node i t ≡ find_node i s

  expire_node-Same :
      (j : String) (s : Store) → (j == i) ≡ false → Same s (expire_node env wired u j s)
  unfolding expire_node update_status find_node
  expire_node-Same j s other =
      elim (Bool-cases (is_kept env wired u (lookup_node env j s) || env.status_fails j)) [
        | inl e ↦ rw e refl
        | inr e ↦ rw e (find-set_status_other i j expired s.nodes other)
      ]

  clear_node-Same :
      (j : String) (s : Store) → (j == i) ≡ false → Same s (left_by (clear_node env wired u j s))
  unfolding clear_node delete_measurements find_node
  clear_node-Same j s other = elim (Bool-cases (not wired.measurements)) [
    | inl e ↦ rw e (expire_node-Same j s other)
    | inr e ↦ elim (Bool-cases (env.measurements_fail j)) [
      | inl f ↦ rw (e, f) refl
      | inr f ↦ rw (e, f) (expire_node-Same j (delete_measurements j s) other)
    ]
  ]

  after_sources-Same :
      (j : String) (s : Store) (o : Option (List NodeSource))
      → (j == i) ≡ false
      → Same s (left_by (after_sources env wired u j s o))
  unfolding after_sources
  after_sources-Same j s none other = refl
  after_sources-Same j s (some []) other = clear_node-Same j s other
  after_sources-Same j s (some (source ∷ l)) other = refl

  prune_node-Same :
      (j : String) (s : Store) → (j == i) ≡ false → Same s (left_by (prune_node env wired u j s))
  unfolding prune_node delete_source find_node
  prune_node-Same j s other = elim (Bool-cases (env.delete_fails j)) [
    | inl e ↦ rw e refl
    | inr e ↦ rw e (after_sources-Same j (delete_source j u s) _ other)
  ]

  next_pruned-Same :
      (s : Store) (step : Step Store) (again : Store → Step Store)
      → Same s (left_by step)
      → ((t : Store) → Same t (left_by (again t)))
      → Same s (left_by (next_pruned env wired u again step))
  unfolding next_pruned
  next_pruned-Same s (fail e t) again h later = h
  next_pruned-Same s (ok t) again h later = later t ∙ h

  other_than_seen :
      (j : String) (seen : List String) → has i seen ≡ true → has j seen ≡ false → (j == i) ≡ false
  other_than_seen j seen h k = elim (Bool-cases (j == i)) [
    | inl e ↦ absurd (cc (h, rw ((str_eq_iff j i).0 e) at k))
    | inr e ↦ e
  ]

  pub prune_all-Same :
      (seen ids : List String)
      → has i seen ≡ true
      → (s : Store) → Same s (left_by (prune_all env wired u seen ids s))
  unfolding prune_all
  prune_all-Same seen [] h s = refl
  prune_all-Same seen (j ∷ ids) h s =
      next_pruned-Same s (if has j seen then ok s else prune_node env wired u j s)
        (prune_all env wired u seen ids)
        (elim (Bool-cases (has j seen)) [
          | inl e ↦ rw e refl
          | inr e ↦ rw e (prune_node-Same j s (other_than_seen j seen h e))
        ])
        (prune_all-Same seen ids h)
