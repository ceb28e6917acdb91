-- ===== src/Planner.antt =====
-- AutomaticTestPlanner of internal/application/automatic_tests.go: which test the service starts by
-- itself. What the repositories and submit answer is an argument; strings are ordered by a
-- parameter. A time is a number of nanoseconds, and `none` where a map has no time for a node.
mod Tests
pub mod Single
pub mod Next
use bagualu.Base.{
  ℕ, ◌+◌, ◌*◌, String, Bool, true, false, not, ◌&&◌, ◌||◌, Option, none, some, List, [], ◌∷◌, ltb,
  leb, ◌==◌, nat_eq, string_eq, if◌then◌else◌,
}

pub record Node : Type 0 where
  pub id : String
  pub status : String

-- Durations that are not positive are 0 here.
pub record Policy : Type 0 where
  pub ping_interval : ℕ
  pub throughput_allowed : Bool
  pub throughput_day_start : ℕ
  pub throughput_retry_interval : ℕ
  pub speed_source : String

abbrev pub Times : Type 0
Times = String → Option ℕ

-- What the planner reads: `none` where a repository answers with an error.
pub record Repositories : Type 0 where
  -- p.busy, false where it is nil
  pub busy : Bool
  pub find_all : Option (List Node)
  pub throughput_attempts : Option Times
  pub throughput_results : Option Times
  pub ping_times : Option Times
  pub connectivity_times : Option Times

pub record Candidate : Type 0 where
  pub node : Node
  pub kind : String
  pub last : Option ℕ

-- A call of submit: the node's ID, the kind and the source.
pub record Submission : Type 0 where
  pub node_id : String
  pub kind : String
  pub source : String

abbrev pub or_default : ℕ → ℕ → ℕ
or_default d n = if leb n 0 then d else n

-- !last.IsZero() && last.Add(interval).After(now)
abbrev pub is_recent : ℕ → ℕ → Option ℕ → Bool
is_recent now interval none = false
is_recent now interval (some last) = ltb now (last + interval)

-- hasResult && !lastResult.Before(dayStart)
abbrev pub is_done : ℕ → Option ℕ → Bool
is_done day_start none = false
is_done day_start (some last) = not (ltb last day_start)

same_time : Option ℕ → Option ℕ → Bool
same_time none none = true
same_time (some a) (some b) = a == b
same_time _ _ = false

earlier : Option ℕ → Option ℕ → Bool
earlier none b = true
earlier (some a) none = false
earlier (some a) (some b) = ltb a b

module _ (text_lt : String → String → Bool) where
  -- The comparison of sortCandidates.
  pub comes_before : Candidate → Candidate → Bool
  unfolding same_time earlier
  comes_before a b =
      if same_time a.last b.last then text_lt a.node.id b.node.id else earlier a.last b.last

  pub insert_candidate : Candidate → List Candidate → List Candidate
  insert_candidate x [] = x ∷ []
  insert_candidate x (y ∷ ys) =
      let rest = insert_candidate x ys in if comes_before y x then y ∷ rest else x ∷ y ∷ ys

  -- sortCandidates, by insertion; the IDs of nodes differ, so that the order is the only one.
  pub sort_candidates : List Candidate → List Candidate
  unfolding insert_candidate
  sort_candidates [] = []
  sort_candidates (x ∷ xs) = insert_candidate x (sort_candidates xs)

  -- The first loop of nextThroughput: whether a node becomes a candidate.
  pub is_due : ℕ → Policy → Times → Times → Node → Bool
  is_due now policy attempts results n =
      (n.status == "active")
      && (not (is_done policy.throughput_day_start (results n.id))
          && not (
              is_recent now (or_default (5 * 60 * 1000000000) policy.throughput_retry_interval)
                (attempts n.id)))

  pub throughput_candidates : ℕ → Policy → Times → Times → List Node → List Candidate
  unfolding is_due
  throughput_candidates now policy attempts results [] = []
  throughput_candidates now policy attempts results (n ∷ ns) =
      let rest = throughput_candidates now policy attempts results ns in
      if is_due now policy attempts results n
      then record { node = n; kind = ""; last = attempts n.id } ∷ rest
      else rest

  abbrev pub head_node : List Candidate → Option Node
  head_node [] = none
  head_node (c ∷ cs) = some c.node

  -- nextThroughput, where both repositories answered
  pub next_throughput : ℕ → Policy → Times → Times → List Node → Option Node
  unfolding sort_candidates throughput_candidates
  next_throughput now policy attempts results nodes =
      head_node (sort_candidates (throughput_candidates now policy attempts results nodes))

  -- The kind and the latest time of a node in schedulePing.
  abbrev pub ping_kind : Times → Times → Node → String × Option ℕ
  ping_kind pings connects n =
      if n.status == "endpoint_ip_unreachable"
      then ("connectivity", connects n.id)
      else ("ping", pings n.id)

  abbrev pub is_tested : Node → Bool
  is_tested n = (n.status == "endpoint_ip_unreachable") || (n.status == "active")

  pub ping_candidates : ℕ → ℕ → Times → Times → List Node → List Candidate
  ping_candidates now interval pings connects [] = []
  ping_candidates now interval pings connects (n ∷ ns) =
      let rest = ping_candidates now interval pings connects ns in
      let (kind, latest) = ping_kind pings connects n in
      if is_tested n && not (is_recent now interval latest)
      then record { node = n; kind = kind; last = latest } ∷ rest
      else rest

  -- The last loop of schedulePing: the calls of submit, and whether it returns an error.
  pub submit_first : (Submission → Bool) → List Candidate → List Submission × Bool
  submit_first accepts [] = ([], false)
  submit_first accepts (c ∷ cs) =
      let call : Submission = record { node_id = c.node.id; kind = c.kind; source = "" } in
      let (later, failed) = submit_first accepts cs in
      if accepts call
      then (call ∷ [], false)
      else if c.kind == "connectivity"
      then (call ∷ later, failed)
      else (call ∷ [], true)

  pub schedule_ping :
      (Submission → Bool) → ℕ → ℕ → Option Times → Option Times → List Node → List Submission × Bool
  unfolding submit_first sort_candidates ping_candidates
  schedule_ping accepts now interval none connects nodes = ([], true)
  schedule_ping accepts now interval (some pings) none nodes = ([], true)
  schedule_ping accepts now interval (some pings) (some connects) nodes = submit_first accepts (
      sort_candidates
        (ping_candidates now (or_default (60 * 1000000000) interval) pings connects nodes))

  -- nextThroughput with its errors: `none` is an error.
  try_throughput : ℕ → Policy → Option Times → Option Times → List Node → Option (Option Node)
  unfolding next_throughput
  try_throughput now policy none results nodes = none
  try_throughput now policy (some attempts) none nodes = none
  try_throughput now policy (some attempts) (some results) nodes =
      some (next_throughput now policy attempts results nodes)

  submit_throughput :
      (Submission → Bool)
      → String
      → Option (Option Node)
      → List Submission × Bool
      → List Submission × Bool
  submit_throughput accepts source none otherwise = ([], true)
  submit_throughput accepts source (some none) otherwise = otherwise
  submit_throughput accepts source (some (some n)) otherwise =
      let call : Submission = record { node_id = n.id; kind = "throughput"; source = source } in
      (call ∷ [], not (accepts call))

  run_nodes :
      (Submission → Bool) → ℕ → Policy → Repositories → Option (List Node) → List Submission × Bool
  unfolding submit_throughput try_throughput schedule_ping
  run_nodes accepts now policy r none = ([], true)
  run_nodes accepts now policy r (some nodes) =
      let pinged =
        schedule_ping accepts now policy.ping_interval r.ping_times r.connectivity_times nodes in
      if policy.throughput_allowed && not (policy.speed_source == "")
      then submit_throughput accepts policy.speed_source
          (try_throughput now policy r.throughput_attempts r.throughput_results nodes) pinged
      else pinged

  -- Run: the calls of submit in order, and whether it returns an error.
  pub run_planner : (Submission → Bool) → ℕ → Policy → Repositories → List Submission × Bool
  unfolding run_nodes
  run_planner accepts now policy r =
      if r.busy then ([], false) else run_nodes accepts now policy r r.find_all
