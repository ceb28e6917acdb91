-- ===== src/Refresh/Store.antt =====
-- The state that a refresh changes: the tables nodes, node_sources, measurements and
-- refresh_records of internal/infrastructure/persistence/schema.sql, with the statements of
-- node_repo.go, measurement_repo.go and upstream_repo.go beside it that the refresh calls.
use bagualu.Base.{
  ℕ, String, Bool, ◌&&◌, Option, none, some, List, [], ◌∷◌, ◌==◌, nat_eq, string_eq, if◌then◌else◌,
}

-- Go's map[string]any, a value as its JSON text
abbrev pub Config : Type 0
Config = List (String × String)

pub data NodeStatus : Type 0 where
  active unreachable endpoint_unreachable disabled expired invalid : NodeStatus

-- What is known of a place (ExitIP, Country, City, ASN, Organization, Region and their times) is
-- one text here: a refresh handles these fields alike.
pub record Node : Type 0 where
  pub id : String
  pub name : String
  pub protocol : String
  pub address : String
  pub port : ℕ
  pub endpoint_ip : String
  pub location : String
  pub source_url : String
  pub status : NodeStatus
  pub raw_config : Config
  -- `none` is the zero time
  pub created_at : Option ℕ
  pub updated_at : ℕ

pub record NodeSource : Type 0 where
  pub node_id : String
  pub upstream_id : String
  pub original_name : String

-- The failures of a refresh, one for each error that it makes or passes on.
pub data RefreshError : Type 0 where
  not_configured no_upstream invalid_url request_failed read_failed too_large parse_failed :
      RefreshError
  http_status : ℕ → RefreshError
  sources_failed save_failed source_failed delete_failed measurements_failed : String → RefreshError

pub record RefreshRecord : Type 0 where
  pub upstream_id : String
  pub success : Bool
  pub error : Option RefreshError
  pub node_count : ℕ

pub record Store : Type 0 where
  pub nodes : List Node
  pub sources : List NodeSource
  -- the node of each measurement
  pub measured_nodes : List String
  pub records : List RefreshRecord

unfoldable pub find_in : String → List Node → Option Node
find_in i [] = none
find_in i (n ∷ nodes) = let later = find_in i nodes in if n.id == i then some n else later

-- NodeRepo.FindByID where the database answers
unfoldable pub find_node : String → Store → Option Node
unfolding find_in
find_node i s = find_in i s.nodes

-- INSERT INTO nodes … ON CONFLICT(id) DO UPDATE: created_at stays.
unfoldable pub put_node : Node → List Node → List Node
put_node n [] = n ∷ []
put_node n (m ∷ nodes) =
    let later = put_node n nodes in
    if m.id == n.id then record n { created_at = m.created_at } ∷ nodes else m ∷ later

unfoldable pub save_node : Node → Store → Store
unfolding put_node
save_node n s = record s { nodes = put_node n s.nodes }

unfoldable pub set_status_in : String → NodeStatus → List Node → List Node
set_status_in i status [] = []
set_status_in i status (n ∷ nodes) =
    let later = set_status_in i status nodes in
    if n.id == i then record n { status = status } ∷ later else n ∷ later

-- NodeRepo.UpdateStatus; its ErrNotFound is not looked at.
unfoldable pub update_status : String → NodeStatus → Store → Store
unfolding set_status_in
update_status i status s = record s { nodes = set_status_in i status s.nodes }

abbrev pub links : String → String → NodeSource → Bool
links i u source = (source.node_id == i) && (source.upstream_id == u)

-- INSERT INTO node_sources … ON CONFLICT(node_id,upstream_id) DO UPDATE
unfoldable pub put_source : NodeSource → List NodeSource → List NodeSource
put_source source [] = source ∷ []
put_source source (old ∷ sources) =
    let later = put_source source sources in
    if links source.node_id source.upstream_id old then source ∷ sources else old ∷ later

unfoldable pub save_source : NodeSource → Store → Store
unfolding put_source
save_source source s = record s { sources = put_source source s.sources }

-- NodeRepo.FindNodeIDsByUpstream
unfoldable pub ids_by_upstream : String → List NodeSource → List String
ids_by_upstream u [] = []
ids_by_upstream u (source ∷ sources) =
    let later = ids_by_upstream u sources in
    if source.upstream_id == u then source.node_id ∷ later else later

-- NodeRepo.FindNodeSources
unfoldable pub sources_of : String → List NodeSource → List NodeSource
sources_of i [] = []
sources_of i (source ∷ sources) =
    let later = sources_of i sources in if source.node_id == i then source ∷ later else later

unfoldable pub without_source : String → String → List NodeSource → List NodeSource
without_source i u [] = []
without_source i u (source ∷ sources) =
    let later = without_source i u sources in if links i u source then later else source ∷ later

-- NodeRepo.DeleteNodeSource
unfoldable pub delete_source : String → String → Store → Store
unfolding without_source
delete_source i u s = record s { sources = without_source i u s.sources }

unfoldable pub without_measured : String → List String → List String
without_measured i [] = []
without_measured i (j ∷ l) = let later = without_measured i l in if j == i then later else j ∷ later

-- MeasurementRepo.DeleteByNodeID
unfoldable pub delete_measurements : String → Store → Store
unfolding without_measured
delete_measurements i s = record s { measured_nodes = without_measured i s.measured_nodes }

-- UpstreamRepo.SaveRefreshRecord
unfoldable pub save_record : RefreshRecord → Store → Store
save_record r s = record s { records = r ∷ s.records }
