-- ===== src/Refresh/Disabled.antt =====
-- A manual disable survives UpstreamRefresher.Refresh (internal/application/upstream_refresh.go).
use bagualu.Base.{
  ℕ, String, ◌≡◌, refl, ◌∙◌, inl, inr, true, false, not, ◌||◌, Option, none, some, List, [], ◌∷◌,
  ◌==◌, nat_eq, string_eq, str_eq_iff, Bool-cases,
}
use bagualu.Refresh.Prepared.{prepare_node-id, prepare_node-status}
use bagualu.Refresh.Lookups.{find-put_other, find-put_self, find-set_status_other}
use bagualu.Refresh.Keeps.{left_by, import_left, refresh_upstream-keeps}
use bagualu.Refresh.Prune.{
  Upstream, Wired, is_kept, expire_node, clear_node, after_sources, prune_node, refresh_upstream,
}
use bagualu.Refresh.Import.{
  Env, has, lookup_node, Import, Step, owned, known_node, identify, prepare_node, save_imported,
  identified, import_node, ok, fail,
}
use bagualu.Refresh.Fetch.{Http}
use bagualu.Refresh.Store.{
  Node, NodeSource, Store, find_node, save_node, update_status, save_source, delete_source,
  delete_measurements, save_record, disabled, expired,
}

abbrev pub IsOff : String → Store → Type 0
IsOff i s = (node : Node) × (find_node i s ≡ some node) × (node.status ≡ disabled)

-- A failure to identify a node leaves the store.
abbrev pub Unmoved : Store → Step (Node × ℕ) → Type 0
Unmoved s (fail e t) = t ≡ s
Unmoved s (ok named) = Unit

module _ (env : Env) (u url : String) (previous : List String) where
  owned-Unmoved :
      (node existing : Node) (im : Import) (o : Option (List NodeSource))
      → Unmoved im.store (owned env u url previous node existing im o)
  unfolding owned
  owned-Unmoved node existing im none = refl
  owned-Unmoved node existing im (some []) = tt
  owned-Unmoved node existing im (some (source ∷ l)) = tt

  known_node-Unmoved :
      (node : Node) (im : Import) (o : Option Node)
      → Unmoved im.store (known_node env u url previous node im o)
  unfolding known_node
  known_node-Unmoved node im none = tt
  known_node-Unmoved node im (some existing) = owned-Unmoved node existing im _

  pub identify-Unmoved :
      (node : Node) (im : Import) → Unmoved im.store (identify env u url previous node im)
  unfolding identify
  identify-Unmoved node im = known_node-Unmoved node im (lookup_node env node.id im.store)

  module _ (i : String) (answers : env.find_fails i ≡ false) where
    lookup-IsOff :
        (j : String) (s : Store) (off : IsOff i s)
        → (j == i) ≡ true
        → lookup_node env j s ≡ some off.0
    unfolding lookup_node
    lookup-IsOff j s off e = rw ((str_eq_iff j i).0 e, answers) (off.1)

    put-IsOff :
        (node : Node) (s : Store)
        → IsOff i s
        → IsOff i (save_node (prepare_node env u url previous node s) s)
    unfolding save_node find_node
    put-IsOff node s off =
        let prepared = prepare_node env u url previous node s in
        let same = prepare_node-id env u url previous node s in
        elim (Bool-cases (node.id == i)) [
          | inl e ↦
              let put = find-put_self i prepared s.nodes (rw same e) in
              let off' =
                prepare_node-status env u url previous node off.0 s (lookup-IsOff node.id s off e)
                  off.2 in
              (put.0, put.1, put.2 ∙ off')
          | inr e ↦ (off.0, find-put_other i prepared s.nodes (rw same e) ∙ off.1, off.2)
        ]

    identified-IsOff :
        (im : Import) (step : Step (Node × ℕ))
        → IsOff i im.store
        → Unmoved im.store step
        → IsOff i (import_left (identified env u url previous im step))
    unfolding identified save_imported save_source find_node
    identified-IsOff im (fail e t) off h = rw h off
    identified-IsOff im (ok (node, made)) off h =
        let prepared = prepare_node env u url previous node im.store in
        elim (Bool-cases (env.save_fails prepared.id)) [
          | inl e ↦ rw e off
          | inr e ↦ elim (Bool-cases (env.source_fails prepared.id)) [
            | inl f ↦ rw (e, f) (put-IsOff node im.store off)
            | inr f ↦ rw (e, f) (put-IsOff node im.store off)
          ]
        ]

    import_node-IsOff :
        (node : Node) (im : Import)
        → IsOff i im.store
        → IsOff i (import_left (import_node env u url previous node im))
    unfolding import_node
    import_node-IsOff node im off = elim (Bool-cases (has node.id im.seen)) [
      | inl e ↦ rw e off
      | inr e ↦ rw e (identified-IsOff im _ off (identify-Unmoved node im))
    ]

    module _ (wired : Wired) where
      is_kept-IsOff :
          (j : String) (s : Store)
          → IsOff i s
          → (j == i) ≡ true
          → is_kept env wired u (lookup_node env j s) ≡ true
      unfolding is_kept
      is_kept-IsOff j s off e = rw (lookup-IsOff j s off e, off.2) refl

      expire_node-IsOff :
          (j : String) (s : Store) → IsOff i s → IsOff i (expire_node env wired u j s)
      unfolding expire_node update_status find_node
      expire_node-IsOff j s off = elim (Bool-cases (j == i)) [
        | inl e ↦ rw (is_kept-IsOff j s off e) off
        | inr e ↦
            elim (Bool-cases (is_kept env wired u (lookup_node env j s) || env.status_fails j)) [
              | inl f ↦ rw f off
              | inr f ↦ rw f (off.0, find-set_status_other i j expired s.nodes e ∙ off.1, off.2)
            ]
      ]

      clear_node-IsOff :
          (j : String) (s : Store) → IsOff i s → IsOff i (left_by (clear_node env wired u j s))
      unfolding clear_node delete_measurements find_node
      clear_node-IsOff j s off = elim (Bool-cases (not wired.measurements)) [
        | inl e ↦ rw e (expire_node-IsOff j s off)
        | inr e ↦ elim (Bool-cases (env.measurements_fail j)) [
          | inl f ↦ rw (e, f) off
          | inr f ↦ rw (e, f) (expire_node-IsOff j (delete_measurements j s) off)
        ]
      ]

      after_sources-IsOff :
          (j : String) (s : Store) (o : Option (List NodeSource))
          → IsOff i s
          → IsOff i (left_by (after_sources env wired u j s o))
      unfolding after_sources
      after_sources-IsOff j s none off = off
      after_sources-IsOff j s (some []) off = clear_node-IsOff j s off
      after_sources-IsOff j s (some (source ∷ l)) off = off

      prune_node-IsOff :
          (j : String) (s : Store) → IsOff i s → IsOff i (left_by (prune_node env wired u j s))
      unfolding prune_node delete_source find_node
      prune_node-IsOff j s off = elim (Bool-cases (env.delete_fails j)) [
        | inl e ↦ rw e off
        | inr e ↦ rw e (after_sources-IsOff j (delete_source j u s) _ off)
      ]

-- A node that is disabled is disabled after a refresh of any upstream, whether it is still
-- listed or not and whether the refresh succeeds or fails, if the database finds the node.
pub refresh_upstream-IsOff :
    (env : Env) (wired : Wired) (h : Http) (parse : List ℕ → String → Option (List Node))
    (upstream_id i : String) (u : Upstream) (s : Store)
    → env.find_fails i ≡ false
    → IsOff i s
    → IsOff i (refresh_upstream env wired h parse upstream_id (some u) s).store
refresh_upstream-IsOff env wired h parse upstream_id i u s answers off =
    refresh_upstream-keeps (IsOff i) env wired h parse (λ r t k. unfold save_record find_node in k)
      u s (import_node-IsOff env u.id u.url _ i answers)
      (λ j t held k. prune_node-IsOff env u.id u.url [] i answers wired j t k) upstream_id off
