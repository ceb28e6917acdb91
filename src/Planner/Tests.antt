-- ===== src/Planner/Tests.antt =====
-- Three nodes at time 1000, the first of them tested already.
use bagualu.Base.{
  ◌≤◌, String, ◌≡◌, refl, ◌⊎◌, Bool, true, false, none, some, List, [], ◌∷◌, ◌==◌, nat_eq,
  string_eq, if◌then◌else◌, count,
}
use bagualu.Planner.{
  Node, Policy, Times, Repositories, Submission, is_due, next_throughput, run_planner, comes_before,
}
use bagualu.Planner.Single.{run_planner-IsSingle, IsSingle}
use bagualu.Planner.Next.{next_throughput-IsNext, IsNext}

abbrev by_text : String → String → Bool
by_text s t = s == t

abbrev node : String → String → Node
node i status = record { id = i; status = status }

abbrev nodes : List Node
nodes = node "a" "active" ∷ node "b" "endpoint_ip_unreachable" ∷ node "c" "active" ∷ []

abbrev never : Times
never i = none

abbrev tested : Times
tested i = if i == "a" then some 900 else none

abbrev policy : Policy
policy = record {
  ping_interval = 60;
  throughput_allowed = true;
  throughput_day_start = 500;
  throughput_retry_interval = 300;
  speed_source = "";
}

abbrev repositories : Repositories
repositories = record {
  busy = false;
  find_all = some nodes;
  throughput_attempts = some never;
  throughput_results = some tested;
  ping_times = some tested;
  connectivity_times = some never;
}

abbrev refuses_first : Submission → Bool
refuses_first s = if s.kind == "connectivity" then false else true

abbrev calls : List Submission
calls =
    record { node_id = "b"; kind = "connectivity"; source = "" }
    ∷ record { node_id = "c"; kind = "ping"; source = "" }
    ∷ []

submitted : (run_planner by_text refuses_first 1000 policy repositories).0 ≡ calls
unfolding run_planner comes_before
submitted = refl

run_planner-IsSingle_example :
    ((false ≡ false) ⊎ ((run_planner by_text refuses_first 1000 policy repositories).0 ≡ []))
    × IsSingle refuses_first (run_planner by_text refuses_first 1000 policy repositories).0
    × (count refuses_first (run_planner by_text refuses_first 1000 policy repositories).0 ≤ 1)
run_planner-IsSingle_example = run_planner-IsSingle refuses_first by_text 1000 policy repositories

chosen : next_throughput by_text 1000 policy never tested nodes ≡ some (node "c" "active")
unfolding next_throughput is_due
chosen = refl

next_throughput-IsNext_example :
    IsNext by_text 1000 policy never tested nodes
      (next_throughput by_text 1000 policy never tested nodes)
next_throughput-IsNext_example = next_throughput-IsNext by_text 1000 policy never tested nodes
