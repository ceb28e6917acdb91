-- ===== src/Refresh/Tests.antt =====
-- A refresh of one upstream that lists a node entered by hand, a new node and a disabled one.
use bagualu.Base.{
  ℕ, String, ◌≡◌, refl, ◌↔◌, true, false, not, ◌&&◌, Option, none, some, List, [], ◌∷◌, map, ◌==◌,
  nat_eq, string_eq, if◌then◌else◌,
}
use bagualu.Refresh.Prune.{Upstream, Wired, Refreshed, refresh_upstream}
use bagualu.Refresh.Import.{Env, lookup_node, lookup_sources, import_all}
use bagualu.Refresh.Identified.{IsManual}
use bagualu.Refresh.Manual.{refresh_upstream-IsManual}
use bagualu.Refresh.Disabled.{IsOff, refresh_upstream-IsOff}
use bagualu.Refresh.Synced.{IsRefreshed, refresh_upstream-IsSynced}
use bagualu.Refresh.Runner.{run_refresh}
use bagualu.Refresh.Reported.{run_refresh-reported}
use bagualu.Jobs.{pending_job}
use bagualu.Refresh.Store.{
  NodeStatus, Node, Store, find_node, save_node, update_status, save_source, ids_by_upstream,
  sources_of, delete_source, delete_measurements, save_record, active, disabled, expired,
  http_status,
}
use bagualu.Refresh.Fetch.{
  Http, max_subscription_body, fetch, IsFetched, fetch-IsFetched, refused, body,
}

abbrev env : Env
env = record {
  find_fails = λ i. false;
  sources_fail = λ i. false;
  save_fails = λ i. false;
  source_fails = λ i. false;
  delete_fails = λ i. false;
  measurements_fail = λ i. false;
  status_fails = λ i. false;
  index_fails = false;
  record_fails = false;
  uuid = λ n. "new";
  now = 9;
  ranged = λ l. l;
  marshal = λ config. some "";
  resolve_ip = λ address. "192.0.2.1";
}

abbrev wired : Wired
wired = record { upstreams = true; nodes = true; measurements = true }

abbrev web : Http
web = record {
  parse_url = λ s. some (record { scheme = "https"; host = "example.org"; spelling = s });
  send = λ s.
      if s == "/down"
      then some (record { status = 502; body = some [] })
      else some (record { status = 200; body = some (1 ∷ []) });
}

abbrev proxy : String → String → NodeStatus → Node
proxy i address status = record {
  id = i;
  name = i;
  protocol = "socks5";
  address = address;
  port = 1080;
  endpoint_ip = "";
  location = "";
  source_url = "";
  status = status;
  raw_config = [];
  created_at = none;
  updated_at = 0;
}

abbrev by_hand : Node
by_hand = proxy "hand" "a" active

abbrev off : Node
off = proxy "off" "b" disabled

abbrev before : Store
before = record {
  nodes = by_hand ∷ off ∷ proxy "old" "c" active ∷ [];
  sources =
      record { node_id = "off"; upstream_id = "u"; original_name = "off" }
      ∷ record { node_id = "old"; upstream_id = "u"; original_name = "old" }
      ∷ [];
  measured_nodes = "old" ∷ "off" ∷ [];
  records = [];
}

abbrev listing : List ℕ → String → Option (List Node)
listing bytes url =
    some (proxy "hand" "a" active ∷ proxy "off" "b" active ∷ proxy "fresh" "d" active ∷ [])

abbrev upstream : Upstream
upstream = record { id = "u"; url = "/up" }

abbrev down : Upstream
down = record { id = "u"; url = "/down" }

abbrev after : Refreshed
after = refresh_upstream env wired web listing "u" (some upstream) before

listed : map (λ n. n.id) after.store.nodes ≡ "hand" ∷ "off" ∷ "old" ∷ "new" ∷ "fresh" ∷ []
unfolding refresh_upstream fetch max_subscription_body import_all lookup_node find_node
    lookup_sources sources_of ids_by_upstream save_source save_node delete_source save_record
    delete_measurements update_status
listed = refl

-- The node that went is expired and its measurements are gone; the disabled one stays disabled.
statuses :
    map (λ n. n.status) after.store.nodes ≡ active ∷ disabled ∷ expired ∷ active ∷ active ∷ []
unfolding refresh_upstream fetch max_subscription_body import_all lookup_node find_node
    lookup_sources sources_of ids_by_upstream save_source save_node delete_source save_record
    delete_measurements update_status
statuses = refl

measured_nodes : after.store.measured_nodes ≡ "off" ∷ []
unfolding refresh_upstream fetch max_subscription_body import_all lookup_node find_node
    lookup_sources sources_of ids_by_upstream save_source save_node delete_source save_record
    delete_measurements update_status
measured_nodes = refl

refresh_upstream-IsManual_example : IsManual "hand" by_hand after.store
refresh_upstream-IsManual_example =
    refresh_upstream-IsManual env wired web listing "u" "hand" upstream by_hand before refl
      (λ n. refl) (λ l h. h) by_hand_before
  where
    by_hand_before : IsManual "hand" by_hand before
    by_hand_before = unfold find_node sources_of in (refl, refl)

refresh_upstream-IsOff_example : IsOff "off" after.store
refresh_upstream-IsOff_example =
    refresh_upstream-IsOff env wired web listing "u" "off" upstream before refl
      (off, unfold find_node in refl, refl)

no_errors : after.errors ≡ []
unfolding refresh_upstream fetch max_subscription_body import_all lookup_node find_node
    lookup_sources sources_of ids_by_upstream save_source save_node delete_source save_record
    delete_measurements update_status
no_errors = refl

refresh_upstream-IsSynced_example : IsRefreshed env web listing upstream before after
refresh_upstream-IsSynced_example =
    refresh_upstream-IsSynced env wired web listing refl (λ i l. refl) "u" upstream before no_errors

run_refresh-reported_example :
    let r = refresh_upstream env wired web listing "u" (some upstream) before in
    let ended =
      run_refresh
        (λ r. "failed")
        false
        false
        env
        wired
        web
        listing
        "u"
        (some upstream)
        pending_job
        before in
    (ended.1 ≡ r.store)
    × ((ended.1.records ≡ (
          if wired.upstreams && not env.record_fails
          then r.outcome ∷ before.records
          else before.records))
        × ((ended.0.status ≡ "succeeded")
            ↔ ((r.outcome.success ≡ true) × ((wired.upstreams && env.record_fails) ≡ false))))
run_refresh-reported_example =
    run_refresh-reported (λ r. "failed") env wired web listing "u" (some upstream) pending_job
      before

refused_down : fetch web "/down" ≡ refused (http_status 502)
unfolding fetch
refused_down = refl

fetched : fetch web "/up" ≡ body (1 ∷ [])
unfolding fetch max_subscription_body
fetched = refl

fetch-IsFetched_example : IsFetched web "/up" (1 ∷ [])
fetch-IsFetched_example = fetch-IsFetched web "/up" (1 ∷ []) fetched
