-- ===== src/Refresh/Manual.antt =====
-- A node that came from no upstream is out of reach of UpstreamRefresher.Refresh
-- (internal/application/upstream_refresh.go).
use bagualu.Base.{
  ℕ, String, ◌≡◌, refl, ◌∙◌, inl, inr, true, false, not, ◌||◌, Option, none, some, List, [], ◌∷◌,
  ◌==◌, nat_eq, string_eq, Bool-cases,
}
use bagualu.Refresh.Prepared.{prepare_node-id}
use bagualu.Refresh.Lookups.{
  find-put_other, find-set_status_other, sources_of-put_other, sources_of-without_nil,
  has-ids_by_upstream,
}
use bagualu.Refresh.Keeps.{left_by, import_left, refresh_upstream-keeps}
use bagualu.Refresh.Prune.{
  Upstream, Wired, is_kept, expire_node, clear_node, after_sources, prune_node, previous_ids,
  refresh_upstream,
}
use bagualu.Refresh.Import.{
  Env, has, lookup_node, Import, Step, prepare_node, save_imported, identified, import_node, ok,
  fail,
}
use bagualu.Refresh.Fetch.{Http}
use bagualu.Refresh.Store.{
  Node, NodeSource, Store, find_node, save_node, update_status, save_source, sources_of,
  delete_source, delete_measurements, save_record, expired,
}
use bagualu.Refresh.Identified.{IsManual, Named, identify-Named, other_key}

module _ (env : Env) (i : String) (kept : Node) (answers : env.find_fails i ≡ false) where
  abbrev Kept : Store → Type 0
  Kept s = IsManual i kept s

  module _ (fresh : (n : ℕ) → (env.uuid n == i) ≡ false) (u url : String)
      (previous : List String) where
    save_imported-Manual :
        (node : Node) (im : Import)
        → (node.id == i) ≡ false
        → Kept im.store
        → Kept (import_left (save_imported env u url previous node im))
    unfolding save_imported save_node save_source find_node
    save_imported-Manual node im other m = elim (Bool-cases (env.save_fails node.id)) [
      | inl e ↦ simp e m
      | inr e ↦
          let kept_on = find-put_other i node im.store.nodes other ∙ m.0 in
          elim (Bool-cases (env.source_fails node.id)) [
            | inl f ↦ simp (e, f) (kept_on, m.1)
            | inr f ↦ simp (e, f) (kept_on, sources_of-put_other i _ im.store.sources other ∙ m.1)
          ]
    ]

    identified-Manual :
        (im : Import) (step : Step (Node × ℕ))
        → Kept im.store
        → Named env i kept answers im.store step
        → Kept (import_left (identified env u url previous im step))
    unfolding identified
    identified-Manual im (fail e t) m h = rw h m
    identified-Manual im (ok (node, made)) m h =
        save_imported-Manual (prepare_node env u url previous node im.store) _
          (rw (prepare_node-id env u url previous node im.store) h) m

    import_node-Manual :
        (node : Node) (im : Import)
        → Kept im.store
        → Kept (import_left (import_node env u url previous node im))
    unfolding import_node
    import_node-Manual node im m = elim (Bool-cases (has node.id im.seen)) [
      | inl e ↦ rw e m
      | inr e ↦ rw e (
          identified-Manual im _ m
            (identify-Named env i kept answers fresh u url previous node im m))
    ]

  module _ (wired : Wired) (u : String) where
    expire_node-Manual :
        (j : String) (s : Store) → (j == i) ≡ false → Kept s → Kept (expire_node env wired u j s)
    unfolding expire_node update_status find_node
    expire_node-Manual j s other m =
        elim (Bool-cases (is_kept env wired u (lookup_node env j s) || env.status_fails j)) [
          | inl e ↦ rw e m
          | inr e ↦ rw e (find-set_status_other i j expired s.nodes other ∙ m.0, m.1)
        ]

    clear_node-Manual :
        (j : String) (s : Store)
        → (j == i) ≡ false
        → Kept s
        → Kept (left_by (clear_node env wired u j s))
    unfolding clear_node delete_measurements find_node
    clear_node-Manual j s other m = elim (Bool-cases (not wired.measurements)) [
      | inl e ↦ rw e (expire_node-Manual j s other m)
      | inr e ↦ elim (Bool-cases (env.measurements_fail j)) [
        | inl f ↦ rw (e, f) m
        | inr f ↦ rw (e, f) (expire_node-Manual j (delete_measurements j s) other m)
      ]
    ]

    after_sources-Manual :
        (j : String) (s : Store) (o : Option (List NodeSource))
        → (j == i) ≡ false
        → Kept s
        → Kept (left_by (after_sources env wired u j s o))
    unfolding after_sources
    after_sources-Manual j s none other m = m
    after_sources-Manual j s (some []) other m = clear_node-Manual j s other m
    after_sources-Manual j s (some (source ∷ l)) other m = m

    prune_node-Manual :
        (j : String) (s : Store)
        → (j == i) ≡ false
        → Kept s
        → Kept (left_by (prune_node env wired u j s))
    unfolding prune_node delete_source find_node
    prune_node-Manual j s other m =
        let without = sources_of-without_nil i j u s.sources m.1 in
        elim (Bool-cases (env.delete_fails j)) [
          | inl e ↦ rw e m
          | inr e ↦ rw e (after_sources-Manual j _ _ other (m.0, without))
        ]

has-previous_ids :
    (env : Env) (wired : Wired) (h : Http) (parse : List ℕ → String → Option (List Node))
    (i u : String) (s : Store)
    → sources_of i s.sources ≡ []
    → has i (previous_ids env wired h parse u s) ≡ false
unfolding previous_ids has
has-previous_ids env wired h parse i u s none_of = elim (Bool-cases env.index_fails) [
  | inl e ↦ rw e refl
  | inr e ↦ rw e (has-ids_by_upstream i u s.sources none_of)
]

-- A node that no upstream has listed stays as it is and without a source, whatever an upstream's
-- subscription lists and whether its refresh succeeds or fails on the way, if the database finds
-- the node, no new ID is its own, and ranging over a map visits no key that the map does not hold.
pub refresh_upstream-IsManual :
    (env : Env) (wired : Wired) (h : Http) (parse : List ℕ → String → Option (List Node))
    (upstream_id i : String) (u : Upstream) (kept : Node) (s : Store)
    → env.find_fails i ≡ false
    → ((n : ℕ) → (env.uuid n == i) ≡ false)
    → ((l : List String) → has i (env.ranged l) ≡ true → has i l ≡ true)
    → IsManual i kept s
    → IsManual i kept (refresh_upstream env wired h parse upstream_id (some u) s).store
refresh_upstream-IsManual env wired h parse upstream_id i u kept s answers fresh only m =
    refresh_upstream-keeps (IsManual i kept) env wired h parse
      (λ r t k. unfold save_record find_node in k) u s
      (import_node-Manual env i kept answers fresh u.id u.url _)
      (λ j t held k.
        prune_node-Manual env i kept answers wired u.id j t
          (other_key j i (λ same.
            cc (only _ (rw same at held), has-previous_ids env wired h parse i u.id s m.1)))
          k)
      upstream_id m
