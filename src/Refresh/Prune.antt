-- ===== src/Refresh/Prune.antt =====
-- The end of UpstreamRefresher.Refresh, which takes the nodes that the subscription no longer has
-- out of the upstream, and Refresh whole (internal/application/upstream_refresh.go).
use bagualu.Base.{
  ℕ, String, Bool, true, false, not, ◌&&◌, ◌||◌, Option, none, some, List, [], ◌∷◌, if◌then◌else◌,
  length,
}
use bagualu.Refresh.Store.{
  Node, NodeSource, RefreshError, RefreshRecord, Store, update_status, ids_by_upstream,
  delete_source, delete_measurements, save_record, disabled, expired, not_configured, no_upstream,
  parse_failed, delete_failed, measurements_failed,
}
use bagualu.Refresh.Fetch.{Http, Fetched, fetch, refused, body}
use bagualu.Refresh.Import.{
  Env, has, lookup_node, lookup_sources, Import, Step, import_all, ok, fail,
}

pub record Upstream : Type 0 where
  pub id : String
  pub url : String

-- Which of the repositories are not nil. The type assertions of r.nodes hold, as they do for NodeRepo.
pub record Wired : Type 0 where
  pub upstreams : Bool
  pub nodes : Bool
  pub measurements : Bool

module _ (env : Env) (wired : Wired) (upstream_id : String) where
  unfoldable pub is_kept : Option Node → Bool
  is_kept none = true
  is_kept (some node) = elim node.status [ disabled ↦ true | _ ↦ false ]

  -- A node without a source that is not disabled becomes expired.
  unfoldable pub expire_node : String → Store → Store
  unfolding is_kept
  expire_node i s =
      if is_kept (lookup_node env i s) || env.status_fails i then s else update_status i expired s

  -- The measurements go, then the status.
  unfoldable pub clear_node : String → Store → Step Store
  unfolding expire_node
  clear_node i s =
      if not wired.measurements
      then ok (expire_node i s)
      else if env.measurements_fail i
      then fail (measurements_failed i) s
      else ok (expire_node i (delete_measurements i s))

  unfoldable pub after_sources : String → Store → Option (List NodeSource) → Step Store
  unfolding clear_node
  after_sources i s none = ok s
  after_sources i s (some (source ∷ sources)) = ok s
  after_sources i s (some []) = clear_node i s

  -- The body of the loop for an ID that was not seen.
  unfoldable pub prune_node : String → Store → Step Store
  unfolding after_sources
  prune_node i s =
      let left = delete_source i upstream_id s in
      if env.delete_fails i
      then fail (delete_failed i) s
      else after_sources i left (lookup_sources env i left)

  unfoldable pub next_pruned : (Store → Step Store) → Step Store → Step Store
  next_pruned again (fail e s) = fail e s
  next_pruned again (ok s) = again s

  unfoldable pub prune_all : List String → List String → Store → Step Store
  unfolding prune_node next_pruned
  prune_all seen [] s = ok s
  prune_all seen (i ∷ ids) s =
      next_pruned (prune_all seen ids) (if has i seen then ok s else prune_node i s)

-- The record of a refresh at its start.
abbrev pub open_record : String → RefreshRecord
open_record i = record { upstream_id = i; success = false; error = none; node_count = 0 }

-- The outcome of Refresh: the record, the errors that it joins, and the store.
pub record Refreshed : Type 0 where
  pub outcome : RefreshRecord
  pub errors : List RefreshError
  -- whether SaveRefreshRecord failed
  pub unrecorded : Bool
  pub store : Store

module _ (env : Env) (wired : Wired) (h : Http) (parse : List ℕ → String → Option (List Node)) where
  -- saveFailure
  unfoldable pub save_failure : RefreshRecord → RefreshError → Store → Refreshed
  save_failure r e s =
      let failed : RefreshRecord = record r { error = some e } in
      record {
        outcome = failed;
        errors = e ∷ [];
        unrecorded = wired.upstreams && env.record_fails;
        store = if wired.upstreams && not env.record_fails then save_record failed s else s;
      }

  unfoldable pub finish_refresh : RefreshRecord → List String → Step Store → Refreshed
  unfolding save_failure
  finish_refresh r seen (fail e s) = save_failure r e s
  finish_refresh r seen (ok s) =
      let done : RefreshRecord = record r { success = true; node_count = length seen } in
      record {
        outcome = done;
        errors = [];
        unrecorded = env.record_fails;
        store = if env.record_fails then s else save_record done s;
      }

  unfoldable pub prune : RefreshRecord → String → List String → Step Import → Refreshed
  unfolding prune_all finish_refresh
  prune r u previous (fail e s) = save_failure r e s
  prune r u previous (ok im) =
      finish_refresh r im.seen (prune_all env wired u im.seen (env.ranged previous) im.store)

  -- The keys of previousIDs.
  unfoldable pub previous_ids : String → Store → List String
  previous_ids u s = if env.index_fails then [] else ids_by_upstream u s.sources

  unfoldable pub import_parsed : RefreshRecord → Upstream → Store → Option (List Node) → Refreshed
  unfolding prune previous_ids
  import_parsed r u s none = save_failure r parse_failed s
  import_parsed r u s (some nodes) =
      let previous = previous_ids u.id s in
      prune r u.id previous
        (import_all env u.id u.url previous nodes (record { store = s; seen = []; made = 1 }))

  unfoldable pub import_fetched : RefreshRecord → Upstream → Store → Fetched → Refreshed
  unfolding import_parsed
  import_fetched r u s (refused e) = save_failure r e s
  import_fetched r u s (body bytes) = import_parsed r u s (parse bytes u.url)

  unfoldable pub refresh_found : RefreshRecord → Store → Option Upstream → Refreshed
  unfolding import_fetched
  refresh_found r s none = save_failure r no_upstream s
  refresh_found r s (some u) = import_fetched r u s (fetch h u.url)

  -- Refresh of an ID, with the answer of UpstreamRepo.FindByID; `parse` is subscription_output.Parse.
  unfoldable pub refresh_upstream : String → Option Upstream → Store → Refreshed
  unfolding refresh_found
  refresh_upstream i found s =
      if not wired.upstreams || not wired.nodes
      then save_failure (open_record i) not_configured s
      else refresh_found (open_record i) s found
