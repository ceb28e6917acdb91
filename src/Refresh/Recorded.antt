-- ===== src/Refresh/Recorded.antt =====
-- The record that UpstreamRefresher.Refresh (internal/application/upstream_refresh.go) leaves of its
-- outcome, and the store where the subscription cannot be had.
use bagualu.Base.{
  ℕ, String, ◌≡◌, refl, ap, ◌∙◌, inl, inr, true, false, not, ◌&&◌, ◌||◌, Option, none, some, List,
  [], ◌∷◌, arith, if◌then◌else◌, Bool-cases, length,
}
use bagualu.Refresh.Keeps.{left_by, import_left, import_all-keeps, prune_all-keeps}
use bagualu.Refresh.Prune.{
  Upstream, Wired, is_kept, expire_node, clear_node, after_sources, prune_node, open_record,
  Refreshed, save_failure, finish_refresh, prune, import_parsed, import_fetched, refresh_found,
  refresh_upstream,
}
use bagualu.Refresh.Import.{
  Env, has, lookup_node, Import, Step, prepare_node, save_imported, identified, import_node, ok,
  fail,
}
use bagualu.Refresh.Fetch.{Http, Fetched, fetch, refused, body}
use bagualu.Refresh.Store.{
  Node, NodeSource, RefreshError, RefreshRecord, Store, save_node, update_status, save_source,
  delete_source, delete_measurements, save_record, not_configured, no_upstream, parse_failed,
}
use bagualu.Refresh.Disabled.{Unmoved, identify-Unmoved}

abbrev KeepsRecords : List RefreshRecord → Store → Type 0
KeepsRecords l s = s.records ≡ l

module _ (env : Env) (u url : String) (l : List RefreshRecord) where
  identified-records :
      (previous : List String) (im : Import) (step : Step (Node × ℕ))
      → im.store.records ≡ l
      → Unmoved im.store step
      → (import_left (identified env u url previous im step)).records ≡ l
  unfolding identified save_imported save_source save_node
  identified-records previous im (fail e t) k h = rw h k
  identified-records previous im (ok (node, made)) k h =
      let prepared = prepare_node env u url previous node im.store in
      elim (Bool-cases (env.save_fails prepared.id)) [
        | inl e ↦ rw e k
        | inr e ↦ elim (Bool-cases (env.source_fails prepared.id)) [
          | inl f ↦ rw (e, f) k
          | inr f ↦ rw (e, f) k
        ]
      ]

  import_node-records :
      (previous : List String) (node : Node) (im : Import)
      → im.store.records ≡ l
      → (import_left (import_node env u url previous node im)).records ≡ l
  unfolding import_node
  import_node-records previous node im k = elim (Bool-cases (has node.id im.seen)) [
    | inl e ↦ rw e k
    | inr e ↦
        rw e (identified-records previous im _ k (identify-Unmoved env u url previous node im))
  ]

  module _ (wired : Wired) where
    expire_node-records :
        (i : String) (s : Store) → (expire_node env wired u i s).records ≡ s.records
    unfolding expire_node update_status
    expire_node-records i s =
        elim (Bool-cases (is_kept env wired u (lookup_node env i s) || env.status_fails i)) [
          | inl e ↦ rw e refl
          | inr e ↦ rw e refl
        ]

    after_sources-records :
        (j : String) (s : Store) (o : Option (List NodeSource))
        → (left_by (after_sources env wired u j s o)).records ≡ s.records
    unfolding after_sources clear_node delete_measurements
    after_sources-records j s none = refl
    after_sources-records j s (some (source ∷ k)) = refl
    after_sources-records j s (some []) = elim (Bool-cases (not wired.measurements)) [
      | inl e ↦ rw e (expire_node-records j s)
      | inr e ↦ elim (Bool-cases (env.measurements_fail j)) [
        | inl f ↦ rw (e, f) refl
        | inr f ↦ rw (e, f) (expire_node-records j (delete_measurements j s))
      ]
    ]

    prune_node-records :
        (j : String) (s : Store)
        → s.records ≡ l
        → (left_by (prune_node env wired u j s)).records ≡ l
    unfolding prune_node delete_source
    prune_node-records j s k = elim (Bool-cases (env.delete_fails j)) [
      | inl e ↦ rw e k
      | inr e ↦ rw e (after_sources-records j (delete_source j u s) _ ∙ k)
    ]

abbrev pub Told : RefreshRecord → List RefreshError → Type 0
Told r [] = (r.success ≡ true) × (r.error ≡ none)
Told r (e ∷ errors) = (r.success ≡ false) × (r.error ≡ some e) × (errors ≡ [])

-- The record tells the error, if any, and is the newest of the stored ones, if it can be stored.
abbrev pub IsRecorded : Env → Wired → List RefreshRecord → Refreshed → Type 0
IsRecorded env wired l r =
    Told r.outcome r.errors
    × (r.unrecorded ≡ (wired.upstreams && env.record_fails))
    × (r.store.records ≡ (if wired.upstreams && not env.record_fails then r.outcome ∷ l else l))

module _ (env : Env) (wired : Wired) (h : Http) (parse : List ℕ → String → Option (List Node))
    (l : List RefreshRecord) where
  save_failure-IsRecorded :
      (r : RefreshRecord) (e : RefreshError) (s : Store)
      → r.success ≡ false
      → s.records ≡ l
      → IsRecorded env wired l (save_failure env wired h parse r e s)
  unfolding save_failure save_record
  save_failure-IsRecorded r e s f k = (
    (f, refl, refl),
    refl,
    elim (Bool-cases (wired.upstreams && not env.record_fails)) [
      | inl t ↦ rw t (ap (λ m. record r { error = some e } ∷ m) k)
      | inr t ↦ rw t k
    ],
  )

  finish_refresh-IsRecorded :
      (r : RefreshRecord) (seen : List String) (step : Step Store)
      → r.success ≡ false
      → r.error ≡ none
      → wired.upstreams ≡ true
      → (left_by step).records ≡ l
      → IsRecorded env wired l (finish_refresh env wired h parse r seen step)
  unfolding finish_refresh save_record
  finish_refresh-IsRecorded r seen (fail e s) f n w k = save_failure-IsRecorded r e s f k
  finish_refresh-IsRecorded r seen (ok s) f n w k = (
    (refl, n),
    rw w refl,
    elim (Bool-cases env.record_fails) [
      | inl t ↦ rw (w, t) k
      | inr t ↦ rw (w, t) (ap (λ m. record r { success = true; node_count = length seen } ∷ m) k)
    ],
  )

  module _ (r : RefreshRecord) (s : Store) (open_yet : r.success ≡ false) (clean : r.error ≡ none)
      (on : wired.upstreams ≡ true) (before : s.records ≡ l) where
    prune-IsRecorded :
        (u : String) (previous : List String) (step : Step Import)
        → (import_left step).records ≡ l
        → IsRecorded env wired l (prune env wired h parse r u previous step)
    unfolding prune
    prune-IsRecorded u previous (fail e t) k = save_failure-IsRecorded r e t open_yet k
    prune-IsRecorded u previous (ok im) k =
        finish_refresh-IsRecorded r im.seen _ open_yet clean on (
          prune_all-keeps (KeepsRecords l) env wired u im.seen (env.ranged previous)
            (λ i t held kept. prune_node-records env u "" l wired i t kept) im.store k)

    import_parsed-IsRecorded :
        (u : Upstream) (o : Option (List Node))
        → IsRecorded env wired l (import_parsed env wired h parse r u s o)
    unfolding import_parsed
    import_parsed-IsRecorded u none = save_failure-IsRecorded r parse_failed s open_yet before
    import_parsed-IsRecorded u (some nodes) = prune-IsRecorded u.id _ _ (
        import_all-keeps (KeepsRecords l) env u.id u.url _ (import_node-records env u.id u.url l _)
          nodes (record { store = s; seen = []; made = 1 }) before)

    import_fetched-IsRecorded :
        (u : Upstream) (f : Fetched)
        → IsRecorded env wired l (import_fetched env wired h parse r u s f)
    unfolding import_fetched
    import_fetched-IsRecorded u (refused e) = save_failure-IsRecorded r e s open_yet before
    import_fetched-IsRecorded u (body bytes) = import_parsed-IsRecorded u (parse bytes u.url)

    refresh_found-IsRecorded :
        (found : Option Upstream)
        → IsRecorded env wired l (refresh_found env wired h parse r s found)
    unfolding refresh_found
    refresh_found-IsRecorded none = save_failure-IsRecorded r no_upstream s open_yet before
    refresh_found-IsRecorded (some u) = import_fetched-IsRecorded u (fetch h u.url)

-- Every refresh, whichever way it ends, puts a record of its outcome before the older ones, which
-- stay, if there is an upstream repository and it stores the record; else the records stay as they
-- were. The record says success with no error where the refresh met none, and else that it failed,
-- with the one error that it met.
pub refresh_upstream-IsRecorded :
    (env : Env) (wired : Wired) (h : Http) (parse : List ℕ → String → Option (List Node))
    (upstream_id : String) (found : Option Upstream) (s : Store)
    → IsRecorded env wired s.records (refresh_upstream env wired h parse upstream_id found s)
unfolding refresh_upstream
refresh_upstream-IsRecorded env wired h parse upstream_id found s =
    elim (Bool-cases (not wired.upstreams || not wired.nodes)) [
      | inl e ↦ rw e (
          save_failure-IsRecorded env wired h parse s.records (open_record upstream_id)
            not_configured s refl refl)
      | inr e ↦ rw e (
          refresh_found-IsRecorded env wired h parse s.records (open_record upstream_id) s refl refl
            (ground arith) refl found)
    ]
