-- ===== src/Refresh/Reported.antt =====
-- What the job of a refresh says of it (internal/application/upstream_refresh.go).
use bagualu.Base.{
  ℕ, String, ◌≡◌, refl, sym, ◌∙◌, ◌≢◌, ◌↔◌, inl, inr, true, false, not, ◌&&◌, Option, List, [], ◌∷◌,
  str_eq_iff, if◌then◌else◌, Bool-cases,
}
use bagualu.Jobs.{RunnerJob, running_job}
use bagualu.Refresh.Store.{Node, RefreshError, Store}
use bagualu.Refresh.Fetch.{Http}
use bagualu.Refresh.Import.{Env}
use bagualu.Refresh.Prune.{Upstream, Wired, Refreshed, refresh_upstream}
use bagualu.Refresh.Recorded.{Told, refresh_upstream-IsRecorded}
use bagualu.Refresh.Runner.{has_failed, report_refresh, run_refresh}

abbrev failed_status : String
failed_status = "failed"

failed_text : failed_status ≢ "succeeded"
failed_text h = let e : false ≡ true = (str_eq_iff failed_status "succeeded").1 h in cc e

-- A refresh has no error exactly when its record says success and could be stored.
has_failed_iff :
    (r : Refreshed) (errors : List RefreshError)
    → r.errors ≡ errors
    → Told r.outcome errors
    → (has_failed r ≡ false) ↔ ((r.outcome.success ≡ true) × (r.unrecorded ≡ false))
has_failed_iff r [] e told = rw e ((λ h. (told.0, h)), (λ h. h.1))
has_failed_iff r (x ∷ l) e told = rw e ((λ h. absurd (cc h)), (λ h. absurd (cc (told.0, h.0))))

report_refresh-succeeded :
    (message : Refreshed → String) (r : Refreshed)
    → ((report_refresh message false r running_job).0.status ≡ "succeeded") ↔ (has_failed r ≡ false)
unfolding report_refresh
report_refresh-succeeded message r = elim (Bool-cases (has_failed r)) [
  | inl e ↦ rw e ((λ h. absurd (failed_text h)), (λ h. absurd (cc h)))
  | inr e ↦ rw e ((λ h. refl), (λ h. refl))
]

-- A refresh job whose updates are not refused leaves the store that Refresh leaves, in which the
-- record of its outcome is the newest if there is an upstream repository that stores it, and the
-- job has succeeded exactly when that record says success and could be stored.
pub run_refresh-reported :
    (message : Refreshed → String) (env : Env) (wired : Wired) (h : Http)
    (parse : List ℕ → String → Option (List Node)) (upstream_id : String) (found : Option Upstream)
    (job : RunnerJob) (s : Store)
    → let r = refresh_upstream env wired h parse upstream_id found s in
      let ended = run_refresh message false false env wired h parse upstream_id found job s in
      (ended.1 ≡ r.store)
      × ((ended.1.records ≡ (
            if wired.upstreams && not env.record_fails then r.outcome ∷ s.records else s.records))
          × ((ended.0.status ≡ "succeeded")
              ↔ ((r.outcome.success ≡ true) × ((wired.upstreams && env.record_fails) ≡ false))))
unfolding run_refresh
run_refresh-reported message env wired h parse upstream_id found job s =
    let r = refresh_upstream env wired h parse upstream_id found s in
    let kept = refresh_upstream-IsRecorded env wired h parse upstream_id found s in
    let told = has_failed_iff r r.errors refl kept.0 in
    let reported = report_refresh-succeeded message r in
    (
      refl,
      (
        kept.2,
        (
          (λ succeeded. let k = told.0 (reported.0 succeeded) in (k.0, sym kept.1 ∙ k.1)),
          (λ both. reported.1 (told.1 (both.0, kept.1 ∙ both.1))),
        ),
      ),
    )
