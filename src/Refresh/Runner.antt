-- ===== src/Refresh/Runner.antt =====
-- UpstreamRefreshRunner of internal/application/upstream_refresh.go, which keeps a job around a
-- refresh. The text of an error is a parameter.
use bagualu.Base.{
  ℕ, String, ◌⊎◌, inl, inr, Bool, true, false, Option, none, some, List, [], ◌∷◌, if◌then◌else◌,
}
use bagualu.Jobs.{RunnerJob, update_job}
use bagualu.Refresh.Store.{Node, Store}
use bagualu.Refresh.Fetch.{Http}
use bagualu.Refresh.Import.{Env}
use bagualu.Refresh.Prune.{Upstream, Wired, Refreshed, refresh_upstream}

-- Submit up to the start of `run`: whether it is configured, the error of Save, and the fresh ID.
unfoldable pub submit_refresh : Bool → Option String → String → String ⊎ String
submit_refresh configured none id =
    if configured then inr id else inl "upstream refresh is not configured"
submit_refresh configured (some e) id =
    if configured then inl e else inl "upstream refresh is not configured"

-- Whether Refresh gives an error.
abbrev pub has_failed : Refreshed → Bool
has_failed r = elim r.errors [ [] ↦ r.unrecorded | e ∷ l ↦ true ]

unfoldable pub report_refresh :
    (Refreshed → String) → Bool → Refreshed → RunnerJob → RunnerJob × Store
report_refresh message refused r job = (
  if has_failed r
      then update_job refused "failed" 100 (message r) job
      else update_job refused "succeeded" 100 "" job,
  r.store,
)

-- UpstreamRefreshRunner.run, where the first and the last update of the job are refused or not.
unfoldable pub run_refresh :
    (Refreshed → String)
    → Bool
    → Bool
    → Env
    → Wired
    → Http
    → (List ℕ → String → Option (List Node))
    → String
    → Option Upstream
    → RunnerJob
    → Store
    → RunnerJob × Store
unfolding report_refresh
run_refresh message refused_first refused_last env wired h parse upstream_id found job s =
    if refused_first
    then (job, s)
    else report_refresh message refused_last
        (refresh_upstream env wired h parse upstream_id found s)
        (update_job false "running" 10 "" job)
