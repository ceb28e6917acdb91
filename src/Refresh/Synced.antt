-- ===== src/Refresh/Synced.antt =====
-- After a refresh that succeeds, an upstream has the nodes that its subscription lists
-- (UpstreamRefresher.Refresh, internal/application/upstream_refresh.go).

use bagualu.Base.{
  ℕ, String, ◌≡◌, refl, sym, ap, ◌∙◌, inl, inr, Bool, true, false, not, ◌||◌, Option, none, some,
  List, [], arith, if◌then◌else◌, Bool-cases, length, All,
}
use bagualu.Refresh.Unlinked.{Pruned, prune_all-Pruned}
use bagualu.Refresh.Entered.{
  IsAmong, all_among, IsFrom, HasId, Ends, AllEntered, import_all-AllEntered,
}
use bagualu.Refresh.Passed.{prune_all-Same}
use bagualu.Refresh.Keeps.{left_by}
use bagualu.Refresh.Grown.{Grown, import_all-Grown}
use bagualu.Refresh.Fetch.{Http, Fetched, fetch, refused, body}
use bagualu.Refresh.Prune.{
  Upstream, Wired, open_record, Refreshed, save_failure, finish_refresh, prune, prune_all,
  previous_ids, import_parsed, import_fetched, refresh_found, refresh_upstream,
}
use bagualu.Refresh.Import.{Env, has, Import, Step, ok, fail}
use bagualu.Refresh.Store.{
  Node, NodeSource, RefreshError, RefreshRecord, Store, find_node, save_record, not_configured,
  parse_failed,
}
use bagualu.Refresh.Linked.{linked, has-ids, NoRepeat}

-- The outcome counts some IDs, all different, and the upstream is linked to just these: each parsed
-- node has got one of them, its own, an earlier one of the upstream or a new one, and under each of
-- them a node is stored that has the name, the protocol, the address, the port and the configuration
-- of a parsed one that has got this ID.
pub record IsSynced (env : Env) (u : String) (old : Store) (nodes : List Node) (r : Refreshed)
    : Type 0 where
  pub seen : List String
  pub apart : NoRepeat seen
  pub counted : r.outcome.node_count ≡ length seen
  pub linked_to : (i : String) → linked i u r.store.sources ≡ has i seen
  pub imported : All (HasId env u old seen) nodes
  pub stored : IsFrom env u old (IsAmong nodes) seen r.store

-- The subscription was fetched and parsed, and the upstream is in step with its nodes.
abbrev pub IsRefreshed :
    Env → Http → (List ℕ → String → Option (List Node)) → Upstream → Store → Refreshed → Type 0
IsRefreshed env h parse u old r =
    (bytes : List ℕ) × (nodes : List Node) × (fetch h u.url ≡ body bytes)
    × (parse bytes u.url ≡ some nodes)
    × IsSynced env u.id old nodes r

module _ (env : Env) (wired : Wired) (h : Http) (parse : List ℕ → String → Option (List Node))
    (index : env.index_fails ≡ false)
    (all_keys : (i : String) (l : List String) → has i (env.ranged l) ≡ has i l) where
  save_failure-errors :
      {P : Type 0} (r : RefreshRecord) (e : RefreshError) (s : Store)
      → (save_failure env wired h parse r e s).errors ≡ []
      → P
  unfolding save_failure
  save_failure-errors r e s k = absurd (cc k)

  recorded-IsFrom :
      (u : String) (old : Store) (nodes : List Node) (seen : List String) (s : Store)
      (last : RefreshRecord) (fails : Bool)
      → IsFrom env u old (IsAmong nodes) seen s
      → IsFrom env u old (IsAmong nodes) seen (if fails then s else save_record last s)
  unfolding save_record find_node
  recorded-IsFrom u old nodes seen s last true from = from
  recorded-IsFrom u old nodes seen s last false from = from

  finish_refresh-IsSynced :
      (u : String) (old : Store) (nodes : List Node) (r : RefreshRecord) (seen : List String)
      (step : Step Store)
      → NoRepeat seen
      → All (HasId env u old seen) nodes
      → ((s : Store) → step ≡ ok s → (i : String) → linked i u s.sources ≡ has i seen)
      → ((s : Store) → step ≡ ok s → IsFrom env u old (IsAmong nodes) seen s)
      → (finish_refresh env wired h parse r seen step).errors ≡ []
      → IsSynced env u old nodes (finish_refresh env wired h parse r seen step)
  unfolding finish_refresh
  finish_refresh-IsSynced u old nodes r seen (fail e s) apart named equal from k =
      save_failure-errors r e s k
  finish_refresh-IsSynced u old nodes r seen (ok s) apart named equal from k = record {
    seen = seen;
    apart = apart;
    counted = refl;
    linked_to = elim (Bool-cases env.record_fails) [
      | inl e ↦ rw e (equal s refl)
      | inr e ↦ rw e (unfold save_record in equal s refl)
    ];
    imported = named;
    stored = recorded-IsFrom u old nodes seen s _ env.record_fails (from s refl);
  }

  links_of_rest :
      (u : String) (seen ids : List String) (old : List NodeSource) (im : Import)
      → ((i : String) → linked i u im.store.sources ≡ (has i seen || linked i u old))
      → ((i : String) → has i ids ≡ linked i u old)
      → (step : Step Store) → Pruned env wired u seen ids im.store.sources step
      → (s : Store) → step ≡ ok s
      → (i : String) → linked i u s.sources ≡ has i seen
  links_of_rest u seen ids old im grown keys (fail e t) p s same i = absurd (cc same)
  links_of_rest u seen ids old im grown keys (ok t) p s same i =
      let same_store : t ≡ s = cc same in
      ap (λ (x : Store). linked i u x.sources) (sym same_store)
      ∙ p i
      ∙ rw (grown i, keys i) (ground arith)

  stored_on :
      (u : String) (old : Store) (nodes : List Node) (seen ids : List String) (im : Import)
      (step : Step Store)
      → prune_all env wired u seen ids im.store ≡ step
      → IsFrom env u old (IsAmong nodes) seen im.store
      → (s : Store) → step ≡ ok s
      → IsFrom env u old (IsAmong nodes) seen s
  stored_on u old nodes seen ids im step same from s done i m =
      let (node, among, named, (x, found, like)) = from i m in
      let kept = prune_all-Same env wired u i seen ids m im.store in
      let left : left_by (prune_all env wired u seen ids im.store) ≡ s = ap left_by (same ∙ done) in
      (node, among, named, (x, ap (find_node i) (sym left) ∙ (kept ∙ found), like))

  previous-linked :
      (u : String) (s : Store) (i : String)
      → has i (env.ranged (previous_ids env wired h parse u s)) ≡ linked i u s.sources
  unfolding previous_ids
  previous-linked u s i =
      all_keys i (previous_ids env wired h parse u s) ∙ rw index (has-ids i u s.sources)

  known_before :
      (u : String) (s : Store) (i : String)
      → has i (env.ranged (previous_ids env wired h parse u s)) ≡ true
      → linked i u s.sources ≡ true
  known_before u s i m = sym (previous-linked u s i) ∙ m

  prune-IsSynced :
      (u url : String) (nodes : List Node) (r : RefreshRecord) (s : Store) (step : Step Import)
      → Grown env u url (previous_ids env wired h parse u s) s.sources step
      → Ends
          (AllEntered env u url
            (previous_ids env wired h parse u s)
            s
            (known_before u s)
            (IsAmong nodes)
            nodes
            [])
          step
      → (prune env wired h parse r u (previous_ids env wired h parse u s) step).errors ≡ []
      → IsSynced env u s nodes
          (prune env wired h parse r u (previous_ids env wired h parse u s) step)
  unfolding prune
  prune-IsSynced u url nodes r s (fail e t) g a k = save_failure-errors r e t k
  prune-IsSynced u url nodes r s (ok im) g a k =
      let ids = env.ranged (previous_ids env wired h parse u s) in
      finish_refresh-IsSynced u s nodes r im.seen (prune_all env wired u im.seen ids im.store) g.1
        a.2
        (links_of_rest u im.seen ids s.sources im g.0 (previous-linked u s) _
          (prune_all-Pruned env wired u im.seen ids im.store))
        (stored_on u s nodes im.seen ids im _ refl a.0) k

  import_parsed-IsSynced :
      (u : Upstream) (r : RefreshRecord) (s : Store) (o : Option (List Node))
      → (import_parsed env wired h parse r u s o).errors ≡ []
      → (nodes : List Node) × (o ≡ some nodes)
        × IsSynced env u.id s nodes (import_parsed env wired h parse r u s o)
  unfolding import_parsed
  import_parsed-IsSynced u r s none k = save_failure-errors r parse_failed s k
  import_parsed-IsSynced u r s (some nodes) k =
      let start : Import = record { store = s; seen = []; made = 1 } in
      (
        nodes,
        refl,
        prune-IsSynced u.id u.url nodes r s _
            (import_all-Grown env u.id u.url _ s.sources nodes start (λ i. unfold has in refl, tt))
            (import_all-AllEntered env u.id u.url _ s (known_before u.id s) (IsAmong nodes) nodes
              (all_among nodes (IsAmong nodes) (λ n m. m)) start
              (λ i m. absurd (unfold has in cc m)))
            k,
      )

  import_fetched-IsSynced :
      (u : Upstream) (r : RefreshRecord) (s : Store) (f : Fetched)
      → fetch h u.url ≡ f
      → (import_fetched env wired h parse r u s f).errors ≡ []
      → IsRefreshed env h parse u s (import_fetched env wired h parse r u s f)
  unfolding import_fetched
  import_fetched-IsSynced u r s (refused e) same k = save_failure-errors r e s k
  import_fetched-IsSynced u r s (body bytes) same k =
      let (nodes, parsed, synced) = import_parsed-IsSynced u r s (parse bytes u.url) k in
      (bytes, nodes, same, parsed, synced)

  -- After a refresh without an error the subscription was fetched and parsed, and the upstream is
  -- linked to the nodes that the outcome counts, each once, and to no others. Each parsed node has
  -- got the ID of one of them: its own, one that the upstream had before, or a new one; and each of
  -- them is stored with the name, protocol, address, port and configuration of a parsed node whose
  -- ID it is in this sense. The database gives the index of the upstream's nodes, and ranging over a map visits its keys.
  pub refresh_upstream-IsSynced :
      (upstream_id : String) (u : Upstream) (s : Store)
      → (refresh_upstream env wired h parse upstream_id (some u) s).errors ≡ []
      → IsRefreshed env h parse u s (refresh_upstream env wired h parse upstream_id (some u) s)
  unfolding refresh_upstream refresh_found
  refresh_upstream-IsSynced upstream_id u s k =
      elim (Bool-cases (not wired.upstreams || not wired.nodes)) [
        | inl e ↦ save_failure-errors (open_record upstream_id) not_configured s (rw e at k)
        | inr e ↦
            rw e (
              import_fetched-IsSynced u (open_record upstream_id) s (fetch h u.url) refl
                (rw e at k))
      ]
