-- ===== src/Planner/Single.antt =====
-- The submissions of one run of the planner of internal/application/automatic_tests.go.
use bagualu.Base.{
  ℕ, ◌≤◌, String, ◌≡◌, refl, ◌⊎◌, inl, inr, Bool, false, not, ◌&&◌, Option, none, some, List, [],
  ◌∷◌, arith, ◌==◌, nat_eq, string_eq, str_eq_iff, Bool-cases, count,
}
use bagualu.Planner.{
  Node, Policy, Times, Repositories, Candidate, Submission, submit_first, schedule_ping,
  submit_throughput, run_nodes, run_planner,
}

module _ (accepts : Submission → Bool) where
  -- Each call but the last was a connectivity test that submit refused.
  abbrev pub IsSingle : List Submission → Type 0
  IsSingle [] = Unit
  IsSingle (c ∷ []) = Unit
  IsSingle (c ∷ d ∷ l) = (accepts c ≡ false) × (c.kind ≡ "connectivity") × IsSingle (d ∷ l)

  IsSingle-cons :
      (c : Submission) (l : List Submission)
      → accepts c ≡ false
      → c.kind ≡ "connectivity"
      → IsSingle l
      → IsSingle (c ∷ l)
  IsSingle-cons c [] refused kind h = tt
  IsSingle-cons c (d ∷ l) refused kind h = (refused, kind, h)

  IsSingle-count : (l : List Submission) → IsSingle l → count accepts l ≤ 1
  IsSingle-count [] h = omega arith
  IsSingle-count (c ∷ []) h = ground arith
  IsSingle-count (c ∷ d ∷ l) h = rw h.0 (omega (arith, IsSingle-count (d ∷ l) h.2))

  module _ (text_lt : String → String → Bool) where
    submit_first-IsSingle : (cs : List Candidate) → IsSingle (submit_first text_lt accepts cs).0
    unfolding submit_first
    submit_first-IsSingle [] = tt
    submit_first-IsSingle (c ∷ cs) =
        let call : Submission = record { node_id = c.node.id; kind = c.kind; source = "" } in
        elim (Bool-cases (accepts call)) [
          | inl yes_it ↦ simp yes_it tt
          | inr no_it ↦ simp no_it (elim (Bool-cases (c.kind == "connectivity")) [
            | inl same ↦ simp same (
                IsSingle-cons call (submit_first text_lt accepts cs).0 no_it
                  ((str_eq_iff c.kind "connectivity").0 same) (submit_first-IsSingle cs))
            | inr other ↦ simp other tt
          ])
        ]

    schedule_ping-IsSingle :
        (now interval : ℕ) (pings connects : Option Times) (nodes : List Node)
        → IsSingle (schedule_ping text_lt accepts now interval pings connects nodes).0
    unfolding schedule_ping
    schedule_ping-IsSingle now interval none connects nodes = tt
    schedule_ping-IsSingle now interval (some p) none nodes = tt
    schedule_ping-IsSingle now interval (some p) (some c) nodes = submit_first-IsSingle _

    submit_throughput-IsSingle :
        (source : String) (n : Option (Option Node)) (otherwise : List Submission × Bool)
        → IsSingle otherwise.0
        → IsSingle (submit_throughput text_lt accepts source n otherwise).0
    unfolding submit_throughput
    submit_throughput-IsSingle source none otherwise h = tt
    submit_throughput-IsSingle source (some none) otherwise h = h
    submit_throughput-IsSingle source (some (some n)) otherwise h = tt

    run_nodes-IsSingle :
        (now : ℕ) (policy : Policy) (r : Repositories) (nodes : Option (List Node))
        → IsSingle (run_nodes text_lt accepts now policy r nodes).0
    unfolding run_nodes
    run_nodes-IsSingle now policy r none = tt
    run_nodes-IsSingle now policy r (some nodes) =
        let pinged =
          schedule_ping-IsSingle now policy.ping_interval r.ping_times r.connectivity_times nodes in
        elim (Bool-cases (policy.throughput_allowed && not (policy.speed_source == ""))) [
          | inl e ↦ simp e (submit_throughput-IsSingle policy.speed_source _ _ pinged)
          | inr e ↦ simp e pinged
        ]

    -- A run submits nothing while the queue is busy. Otherwise submit accepts at most one of its
    -- calls, and each call but the last is a connectivity test that submit refused: any other
    -- refusal ends the run.
    pub run_planner-IsSingle :
        (now : ℕ) (policy : Policy) (r : Repositories)
        → ((r.busy ≡ false) ⊎ ((run_planner text_lt accepts now policy r).0 ≡ []))
          × IsSingle (run_planner text_lt accepts now policy r).0
          × (count accepts (run_planner text_lt accepts now policy r).0 ≤ 1)
    unfolding run_planner
    run_planner-IsSingle now policy r =
        let h = run_nodes-IsSingle now policy r r.find_all in
        elim (Bool-cases r.busy) [
          | inl e ↦ simp e (inr refl, tt, omega arith)
          | inr e ↦ simp e (inl refl, h, IsSingle-count _ h)
        ]
