-- ===== src/Orchestrator.antt =====
-- Orchestrator of internal/application/orchestrator.go: one job with its checks before and after
-- each attempt, its retries, and the outcome that it delivers. What the checkers and job.Run answer
-- in an attempt is an argument.
mod Checks
mod Tests
pub mod Accepted
pub mod Outcomes
use bagualu.Base.{
  ℕ, zero, suc, ◌*◌, String, ◌⊎◌, inl, inr, Bool, true, false, not, ◌&&◌, ◌||◌, Option, none, some,
  leb, ◌==◌, nat_eq, string_eq, if◌then◌else◌,
}
unfoldable pub use Checks.*

module _ {F : Type 0} (zero_figures : LoadFigures F) (job : TestJob) where
  -- The check of the baseline after a run that gave no error.
  confirm : BaselineResult → Outcome F → Outcome F
  confirm after o =
      let o' = if after.available then o else record o {
        success = false;
        status = "paused";
        error_code = "network_baseline_lost";
        failure_stage = "baseline_after";
        infrastructure = true;
      } in
      if o'.baseline_target == "" then record o' { baseline_target = after.target } else o'

  -- The contention check after a throughput run that gave no error.
  contend : Option (LoadResult F) → Outcome F → Outcome F
  contend none o = o
  contend (some load) o =
      let o' = if load.status == "clean" then o else record o {
        success = false;
        status = "scheduled";
        error_code = load.status;
        failure_stage = "load";
        infrastructure = true;
      } in
      apply_load_result zero_figures job (some load) (record o' {
        load_status = load.status;
        figures = with_rates zero_figures job load.figures o'.figures;
      })

  -- From job.Run to the end of the attempt.
  measured : Answers F → Option Error → Outcome F → State F → Outcome F × State F
  unfolding confirm contend
  measured a (some e) o s = (o, s)
  measured a none o s =
      let o' = confirm a.after o in
      let s' = record s { observed = true; ready = a.after.available } in
      (if job.kind == "throughput" then contend a.contention o' else o', s')

  -- One round of the loop of wrapJob: an outcome that ends the job at once, or the outcome and the
  -- error of a run.
  abbrev Round : Type 0
  Round = (Outcome F ⊎ (Outcome F × Option Error)) × State F

  unblocked : Answers F → Option (Outcome F) × State F → Round
  unfolding measured
  unblocked a (some o, s) = (inl o, s)
  unblocked a (none, s) =
      let (o, s') = measured a a.error (apply_load_result zero_figures job s.load a.outcome) s in
      if a.source_failed && (job.kind == "throughput")
      then (
        inl (
            apply_load_result zero_figures job s.load
              (blocked zero_figures job "scheduled" "speed_source_unavailable" "speed_source" "")),
        s,
      )
      else (inr (o, a.error), s')

  pub attempt : Answers F → State F → Round
  unfolding before_attempt unblocked
  attempt a s = unblocked a (before_attempt zero_figures job a s)

  abbrev replaced : Option Error → Option Error → Option Error
  replaced none err = err
  replaced (some e) err = some e

  -- Whether the loop ends after a round: for no error, or a cancelled context.
  abbrev settled : Option Error → Bool
  settled none = true
  settled (some e) = e.is_canceled

  -- The end of a round whose run was made: the loop breaks, or waits and goes on.
  after_run :
      Bool → Option (Option Error) → Outcome F → Option Error → State F → (State F → Round) → Round
  after_run true wait o err s next = (inr (o, err), s)
  after_run false none o err s next = next s
  after_run false (some e) o err s next = (inr (o, replaced e err), s)

  after_round : Answers F → Round → (State F → Round) → Round
  unfolding after_run
  after_round a (inl o, s) next = (inl o, s)
  after_round a (inr (o, err), s) next = after_run (settled err) a.backoff o err s next

  -- The loop of wrapJob from attempt k on, with `left` = job.Retry - k.
  pub loop : ℕ → ℕ → (ℕ → Answers F) → State F → Round
  unfolding attempt after_round
  loop zero k script s = attempt (script k) s
  loop (suc left) k script s =
      after_round (script k) (attempt (script k) s) (λ s'. loop left (suc k) script s')

  -- validateOutcome
  pub validate_outcome : Outcome F → Bool
  validate_outcome o =
      if (o.kind == "connectivity") || (o.kind == "throughput")
      then not (o.node_name == "") && not (leb o.traffic_after o.traffic_before)
      else true

  abbrev error_code_of : Error → String
  error_code_of e = elim e.code [
    | none ↦ "measurement_failed"
    | some c ↦ or_else "measurement_failed" c
  ]

  -- The treatment of err after the loop.
  judged : Option Error → Outcome F → Outcome F
  judged none o = o
  judged (some e) o =
      if e.is_canceled
      then record o {
        status = "cancelled";
        error_code = "cancelled";
        success = false;
        infrastructure = true;
      }
      else record o {
        error_detail = or_else e.message o.error_detail;
        success = false;
        error_code = or_else (error_code_of e) o.error_code;
        status = or_else "failed" o.status;
      }

  -- From the end of the loop to o.deliver.
  pub finalize : Option Error → Outcome F → Outcome F
  unfolding judged validate_outcome
  finalize err o =
      let named = record o { job_id = job.id; node_id = job.node_id; kind = job.kind } in
      let told = judged err named in
      let valid =
        if told.success && not (validate_outcome told)
        then record told {
          success = false;
          error_code = or_else "core_route_unverified" told.error_code;
        }
        else told in
      if not valid.success && (valid.error_detail == "")
      then record valid { error_detail = valid.error_code }
      else valid

  delivered : Outcome F ⊎ (Outcome F × Option Error) → Outcome F
  unfolding finalize
  delivered (inl o) = o
  delivered (inr (o, err)) = finalize err o

  -- wrapJob: the outcome that is delivered, and the state, from which deliver removes the load.
  unfoldable pub wrap_job : (ℕ → Answers F) → State F → Outcome F × State F
  unfolding loop delivered
  wrap_job script s =
      let (last, s') = loop job.retry 0 script s in (delivered last, record s' { load = none })
