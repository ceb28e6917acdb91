-- ===== src/Refresh/Import.antt =====
-- The loop of UpstreamRefresher.Refresh over the parsed nodes, with findPreviousSubscriptionNode and
-- sameNodeIdentity (internal/application/upstream_refresh.go).
use bagualu.Base.{
  ℕ, suc, String, Bool, true, false, ◌&&◌, ◌||◌, Option, none, some, List, [], ◌∷◌, ◌==◌, nat_eq,
  string_eq, if◌then◌else◌,
}
use bagualu.Refresh.Store.{
  Config, NodeStatus, Node, NodeSource, RefreshError, Store, find_node, save_node, save_source,
  sources_of, disabled, sources_failed, save_failed, source_failed,
}

-- What a refresh is given: which statements the database refuses, by their argument; the new IDs of
-- package uuid in their order; the time; the order in which a map is ranged over; json.Marshal
-- without the spelling of its errors; and the resolver.
pub record Env : Type 0 where
  pub find_fails : String → Bool
  pub sources_fail : String → Bool
  pub save_fails : String → Bool
  pub source_fails : String → Bool
  pub delete_fails : String → Bool
  pub measurements_fail : String → Bool
  pub status_fails : String → Bool
  pub index_fails : Bool
  pub record_fails : Bool
  pub uuid : ℕ → String
  pub now : ℕ
  pub ranged : List String → List String
  pub marshal : Config → Option String
  pub resolve_ip : String → String

unfoldable pub has : String → List String → Bool
has i [] = false
has i (j ∷ l) = (j == i) || has i l

-- seen[id] = struct{}{}: a key is held once.
unfoldable pub note : String → List String → List String
unfolding has
note i l = if has i l then l else i ∷ l

-- FindByID; `none` is its error.
unfoldable pub lookup_node : Env → String → Store → Option Node
lookup_node env i s = if env.find_fails i then none else find_node i s

-- FindNodeSources; `none` is its error.
unfoldable pub lookup_sources : Env → String → Store → Option (List NodeSource)
lookup_sources env i s = if env.sources_fail i then none else some (sources_of i s.sources)

-- delete(config, key)
unfoldable pub without_key : String → Config → Config
without_key k [] = []
without_key k ((j, v) ∷ config) =
    let later = without_key k config in if j == k then later else (j, v) ∷ later

same_text : Option String → Option String → Bool
same_text (some a) (some b) = a == b
same_text (some a) none = false
same_text none o = false

-- sameNodeIdentity, with the copies of cloneNodeConfig
unfoldable pub same_identity : Env → Node → Node → Bool
unfolding without_key same_text
same_identity env left right =
    ((left.protocol == right.protocol) && (left.address == right.address))
    && ((left.port == right.port)
        && same_text (env.marshal (without_key "uri" (without_key "name" left.raw_config)))
            (env.marshal (without_key "uri" (without_key "name" right.raw_config))))

unfoldable pub any_source : String → List NodeSource → Bool
any_source u [] = false
any_source u (source ∷ sources) = (source.upstream_id == u) || any_source u sources

-- The tests of findPreviousSubscriptionNode on one ID.
unfoldable pub is_previous_of : Env → String → Node → Option Node → Option (List NodeSource) → Bool
unfolding same_identity any_source
is_previous_of env u candidate (some node) (some sources) =
    same_identity env node candidate && any_source u sources
is_previous_of env u candidate none sources = false
is_previous_of env u candidate (some node) none = false

-- findPreviousSubscriptionNode over the ranged IDs; `none` is the empty text.
unfoldable pub find_previous : Env → String → Node → Store → List String → Option String
unfolding is_previous_of
find_previous env u candidate s [] = none
find_previous env u candidate s (i ∷ ids) =
    let later = find_previous env u candidate s ids in
    if is_previous_of env u candidate (lookup_node env i s) (lookup_sources env i s)
    then some i
    else later

-- The loop's state: the store, the keys of `seen` and the number of IDs that uuid has made.
pub record Import : Type 0 where
  pub store : Store
  pub seen : List String
  pub made : ℕ

pub data Step {ℓ} (A : Type ℓ) : Type ℓ where
  ok : A → Step A
  fail : RefreshError → Store → Step A

module _ (env : Env) (upstream_id url : String) (previous : List String) where
  -- The ID under which a node of another origin is kept: that of its earlier import, or a new one.
  unfoldable pub renamed : Node → Option String → ℕ → Node × ℕ
  renamed node (some i) made = (record node { id = i }, made)
  renamed node none made = (record node { id = env.uuid made }, suc made)

  unfoldable pub adopted : Node → Option String → Node
  adopted node (some i) = record node { id = i }
  adopted node none = node

  unfoldable pub owned : Node → Node → Import → Option (List NodeSource) → Step (Node × ℕ)
  unfolding renamed find_previous
  owned node existing im none = fail (sources_failed node.id) im.store
  owned node existing im (some []) =
      ok (renamed node (find_previous env upstream_id node im.store (env.ranged previous)) im.made)
  owned node existing im (some (source ∷ sources)) =
      ok (record node { created_at = existing.created_at }, im.made)

  unfoldable pub known_node : Node → Import → Option Node → Step (Node × ℕ)
  unfolding owned adopted
  known_node node im (some existing) = owned node existing im (lookup_sources env node.id im.store)
  known_node node im none =
      ok (adopted node (find_previous env upstream_id node im.store (env.ranged previous)), im.made)

  -- Which ID the node gets.
  unfoldable pub identify : Node → Import → Step (Node × ℕ)
  unfolding known_node
  identify node im = known_node node im (lookup_node env node.id im.store)

  unfoldable pub or_now : Option ℕ → Option ℕ
  or_now none = some env.now
  or_now (some t) = some t

  abbrev pub is_disabled : NodeStatus → Bool
  is_disabled disabled = true
  is_disabled _ = false

  unfoldable pub keep_disabled : Node → Option Node → Node
  keep_disabled node none = node
  keep_disabled node (some existing) =
      if is_disabled existing.status then record node { status = disabled } else node

  -- The fields that the loop sets before it saves the node. Its last test of created_at does
  -- nothing, since created_at is set by then.
  unfoldable pub prepare_node : Node → Store → Node
  unfolding or_now keep_disabled
  prepare_node node s =
      let dated : Node = record node {
        source_url = url;
        endpoint_ip =
            if node.endpoint_ip == "" then env.resolve_ip node.address else node.endpoint_ip;
        updated_at = env.now;
        created_at = or_now node.created_at;
      } in
      keep_disabled dated (lookup_node env node.id s)

  -- Save, SaveNodeSource
  unfoldable pub save_imported : Node → Import → Step Import
  save_imported node im =
      let saved = save_node node im.store in
      let source : NodeSource = record {
        node_id = node.id;
        upstream_id = upstream_id;
        original_name = node.name;
      } in
      if env.save_fails node.id
      then fail (save_failed node.id) im.store
      else if env.source_fails node.id
      then fail (source_failed node.id) saved
      else ok (record im { store = save_source source saved })

  unfoldable pub identified : Import → Step (Node × ℕ) → Step Import
  unfolding prepare_node save_imported note
  identified im (fail e s) = fail e s
  identified im (ok (node, made)) =
      save_imported (prepare_node node im.store)
        (record { store = im.store; seen = note node.id im.seen; made = made })

  -- The body of the loop for one parsed node.
  unfoldable pub import_node : Node → Import → Step Import
  unfolding identify identified
  import_node node im = if has node.id im.seen then ok im else identified im (identify node im)

  unfoldable pub next_node : (Import → Step Import) → Step Import → Step Import
  next_node again (fail e s) = fail e s
  next_node again (ok im) = again im

  unfoldable pub import_all : List Node → Import → Step Import
  unfolding import_node next_node
  import_all [] im = ok im
  import_all (node ∷ nodes) im = next_node (import_all nodes) (import_node node im)
