-- ===== src/Refresh/Keeps.antt =====
-- What each step of UpstreamRefresher.Refresh (internal/application/upstream_refresh.go) keeps, a
-- whole refresh keeps.
use bagualu.Base.{
  ℕ, String, ◌≡◌, refl, inl, inr, true, not, ◌&&◌, ◌||◌, Option, none, some, List, [], ◌∷◌, arith,
  str_eq_iff, if◌then◌else◌, Bool-cases,
}
use bagualu.Refresh.Fetch.{Http, Fetched, fetch, refused, body}
use bagualu.Refresh.Store.{
  Node, RefreshError, RefreshRecord, Store, save_record, not_configured, no_upstream, parse_failed,
}
use bagualu.Refresh.Import.{Env, has, Import, Step, import_node, next_node, import_all, ok, fail}
use bagualu.Refresh.Prune.{
  Upstream, Wired, prune_node, next_pruned, prune_all, open_record, save_failure, finish_refresh,
  prune, previous_ids, import_parsed, import_fetched, refresh_found, refresh_upstream,
}

-- The store at the end of a step, whether it failed or not.
abbrev pub left_by : Step Store → Store
left_by (ok s) = s
left_by (fail e s) = s

abbrev pub import_left : Step Import → Store
import_left (ok im) = im.store
import_left (fail e s) = s

pub has-head : (i : String) (ids : List String) → has i (i ∷ ids) ≡ true
unfolding has
has-head i ids = rw ((str_eq_iff i i).1 refl) refl

pub has-tail : (j i : String) (ids : List String) → has j ids ≡ true → has j (i ∷ ids) ≡ true
unfolding has
has-tail j i ids h = ground arith

module _ {ℓ} (P : Store → Type ℓ) (env : Env) where
  module _ (upstream_id url : String) (previous : List String) where
    next_node-keeps :
        (again : Import → Step Import) (step : Step Import)
        → ((im : Import) → P im.store → P (import_left (again im)))
        → P (import_left step)
        → P (import_left (next_node env upstream_id url previous again step))
    unfolding next_node
    next_node-keeps again (fail e s) later h = h
    next_node-keeps again (ok im) later h = later im h

    pub import_all-keeps :
        ((node : Node) (im : Import)
          → P im.store
          → P (import_left (import_node env upstream_id url previous node im)))
        → (nodes : List Node) (im : Import) → P im.store
        → P (import_left (import_all env upstream_id url previous nodes im))
    unfolding import_all
    import_all-keeps one [] im h = h
    import_all-keeps one (node ∷ nodes) im h =
        next_node-keeps (import_all env upstream_id url previous nodes)
          (import_node env upstream_id url previous node im)
          (λ im' k. import_all-keeps one nodes im' k) (one node im h)

  module _ (wired : Wired) where
    next_pruned-keeps :
        (upstream_id : String) (again : Store → Step Store) (step : Step Store)
        → ((s : Store) → P s → P (left_by (again s)))
        → P (left_by step)
        → P (left_by (next_pruned env wired upstream_id again step))
    unfolding next_pruned
    next_pruned-keeps u again (fail e s) later h = h
    next_pruned-keeps u again (ok s) later h = later s h

    pub prune_all-keeps :
        (upstream_id : String) (seen ids : List String)
        → ((i : String) (s : Store)
            → has i ids ≡ true
            → P s
            → P (left_by (prune_node env wired upstream_id i s)))
        → (s : Store) → P s
        → P (left_by (prune_all env wired upstream_id seen ids s))
    unfolding prune_all
    prune_all-keeps u seen [] one s h = h
    prune_all-keeps u seen (i ∷ ids) one s h =
        next_pruned-keeps u (prune_all env wired u seen ids)
          (if has i seen then ok s else prune_node env wired u i s)
          (λ s' k. prune_all-keeps u seen ids (λ j t m. one j t (has-tail j i ids m)) s' k)
          (elim (Bool-cases (has i seen)) [
            | inl e ↦ rw e h
            | inr e ↦ rw e (one i s (has-head i ids) h)
          ])

    module _ (h : Http) (parse : List ℕ → String → Option (List Node))
        (stored : (r : RefreshRecord) (s : Store) → P s → P (save_record r s)) where
      save_failure-keeps :
          (r : RefreshRecord) (e : RefreshError) (s : Store)
          → P s
          → P (save_failure env wired h parse r e s).store
      unfolding save_failure
      save_failure-keeps r e s k = elim (Bool-cases (wired.upstreams && not env.record_fails)) [
        | inl t ↦ rw t (stored (record r { error = some e }) s k)
        | inr t ↦ rw t k
      ]

      finish_refresh-keeps :
          (r : RefreshRecord) (seen : List String) (step : Step Store)
          → P (left_by step)
          → P (finish_refresh env wired h parse r seen step).store
      unfolding finish_refresh
      finish_refresh-keeps r seen (fail e s) k = save_failure-keeps r e s k
      finish_refresh-keeps r seen (ok s) k = elim (Bool-cases env.record_fails) [
        | inl t ↦ rw t k
        | inr t ↦ rw t (stored _ s k)
      ]

      module _ (u : Upstream) (s : Store)
          (importing : (node : Node) (im : Import)
            → P im.store
            → P (
                import_left
                  (import_node env u.id u.url (previous_ids env wired h parse u.id s) node im)))
          (pruning : (i : String) (t : Store)
            → has i (env.ranged (previous_ids env wired h parse u.id s)) ≡ true
            → P t
            → P (left_by (prune_node env wired u.id i t))) where
        prune-keeps :
            (r : RefreshRecord) (step : Step Import)
            → P (import_left step)
            → P (prune env wired h parse r u.id (previous_ids env wired h parse u.id s) step).store
        unfolding prune
        prune-keeps r (fail e t) k = save_failure-keeps r e t k
        prune-keeps r (ok im) k = finish_refresh-keeps r im.seen _ (
            prune_all-keeps u.id im.seen (env.ranged (previous_ids env wired h parse u.id s))
              pruning im.store k)

        import_parsed-keeps :
            (r : RefreshRecord) (o : Option (List Node))
            → P s
            → P (import_parsed env wired h parse r u s o).store
        unfolding import_parsed
        import_parsed-keeps r none k = save_failure-keeps r parse_failed s k
        import_parsed-keeps r (some nodes) k =
            prune-keeps r _ (import_all-keeps u.id u.url _ importing nodes _ k)

        import_fetched-keeps :
            (r : RefreshRecord) (f : Fetched)
            → P s
            → P (import_fetched env wired h parse r u s f).store
        unfolding import_fetched
        import_fetched-keeps r (refused e) k = save_failure-keeps r e s k
        import_fetched-keeps r (body bytes) k = import_parsed-keeps r (parse bytes u.url) k

        pub refresh_upstream-keeps :
            (i : String) → P s → P (refresh_upstream env wired h parse i (some u) s).store
        unfolding refresh_upstream refresh_found
        refresh_upstream-keeps i k = elim (Bool-cases (not wired.upstreams || not wired.nodes)) [
          | inl t ↦ rw t (save_failure-keeps (open_record i) not_configured s k)
          | inr t ↦ rw t (import_fetched-keeps (open_record i) (fetch h u.url) k)
        ]

      pub refresh_upstream-keeps_missing :
          (i : String) (s : Store) → P s → P (refresh_upstream env wired h parse i none s).store
      unfolding refresh_upstream refresh_found
      refresh_upstream-keeps_missing i s k =
          elim (Bool-cases (not wired.upstreams || not wired.nodes)) [
            | inl t ↦ rw t (save_failure-keeps (open_record i) not_configured s k)
            | inr t ↦ rw t (save_failure-keeps (open_record i) no_upstream s k)
          ]
