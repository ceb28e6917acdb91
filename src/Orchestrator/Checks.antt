-- ===== src/Orchestrator/Checks.antt =====
-- What a job of internal/application/orchestrator.go is tested with, and the checks of beforeAttempt.
use bagualu.Base.{
  ℕ, String, Bool, true, false, not, ◌&&◌, Option, none, some, ◌==◌, nat_eq, string_eq,
  if◌then◌else◌,
}

-- The counters of an interface, which are not negative.
pub record TrafficSample : Type 0 where
  pub download_bytes : ℕ
  pub upload_bytes : ℕ

-- The numbers of a LoadResult, which an outcome takes over; F is float64.
pub record LoadFigures (F : Type 0) : Type 0 where
  pub upload_bps : F
  pub download_bps : F
  pub before : TrafficSample
  pub after : TrafficSample
  pub download_capacity_bps : F
  pub upload_capacity_bps : F
  pub threshold_bps : F
  pub sample_duration_ms : ℕ

-- domain.MeasurementOutcome; the measured values are not modelled.
pub record Outcome (F : Type 0) : Type 0 where
  pub job_id : String
  pub node_id : String
  pub kind : String
  pub status : String
  pub error_code : String
  pub error_detail : String
  pub failure_stage : String
  pub success : Bool
  pub infrastructure : Bool
  pub baseline_target : String
  pub load_status : String
  pub figures : LoadFigures F
  -- Evidence.NodeName, Evidence.TrafficBefore and Evidence.TrafficAfter
  pub node_name : String
  pub traffic_before : ℕ
  pub traffic_after : ℕ

pub record BaselineResult : Type 0 where
  pub available : Bool
  pub error_code : String
  pub target : String

pub record LoadResult (F : Type 0) : Type 0 where
  pub status : String
  pub figures : LoadFigures F

-- An error: its text, the code of `interface{ ErrorCode() string }` if it has one, and whether
-- errors.Is finds context.Canceled.
pub record Error : Type 0 where
  pub message : String
  pub code : Option String
  pub is_canceled : Bool

pub record TestJob : Type 0 where
  pub id : String
  pub node_id : String
  pub kind : String
  -- a Retry below 0 acts as 0
  pub retry : ℕ

-- The answers of one attempt.
pub record Answers (F : Type 0) : Type 0 where
  -- o.baseline.Check; `none` where o.baseline is nil
  pub baseline : Option BaselineResult
  -- whether ctx is done in the second before the recovery check
  pub stopped : Bool
  pub recovery : BaselineResult
  -- o.guard.Check; `none` where o.guard is nil
  pub load : Option (LoadResult F)
  -- whether job.SpeedSourceHealth is set and fails
  pub source_failed : Bool
  pub outcome : Outcome F
  pub error : Option Error
  pub after : BaselineResult
  -- what the contention checker answers; `none` where there is none
  pub contention : Option (LoadResult F)
  -- the wait before the next attempt: `none` where it passes, else the error that replaces err
  -- when ctx is done, if it does
  pub backoff : Option (Option Error)

-- baselineObserved, baselineReady, and loadResults[job.ID].
pub record State (F : Type 0) : Type 0 where
  pub observed : Bool
  pub ready : Bool
  pub load : Option (LoadResult F)

abbrev pub or_else : String → String → String
or_else d s = if s == "" then d else s

abbrev pub has_cancel : Option Error → Bool
has_cancel none = false
has_cancel (some e) = e.is_canceled

module _ {F : Type 0} (zero_figures : LoadFigures F) (job : TestJob) where
  -- An outcome that ends the job before job.Run.
  abbrev pub blocked : String → String → String → String → Outcome F
  blocked status code stage target = record {
    job_id = job.id;
    node_id = job.node_id;
    kind = job.kind;
    status = status;
    error_code = code;
    error_detail = "";
    failure_stage = stage;
    success = false;
    infrastructure = true;
    baseline_target = target;
    load_status = "";
    figures = zero_figures;
    node_name = "";
    traffic_before = 0;
    traffic_after = 0;
  }

  -- o.baseline.Check, or the result where o.baseline is nil
  abbrev pub checked : String → Option BaselineResult → BaselineResult
  checked code none = record { available = false; error_code = code; target = "" }
  checked code (some b) = b

  abbrev pub guarded : Option (LoadResult F) → LoadResult F
  guarded none = record { status = "network_load_unknown"; figures = zero_figures }
  guarded (some l) = l

  -- BackgroundUploadBPS and BackgroundDownloadBPS of an outcome, from a load result
  abbrev pub with_rates : LoadFigures F → LoadFigures F → LoadFigures F
  with_rates load held = record held {
    upload_bps = load.upload_bps;
    download_bps = load.download_bps;
  }

  abbrev pub apply_load_result : Option (LoadResult F) → Outcome F → Outcome F
  apply_load_result none o = o
  apply_load_result (some l) o =
      if l.status == "" then o else record o { load_status = l.status; figures = l.figures }

  -- The load check of beforeAttempt.
  unfoldable pub check_load : LoadResult F → State F → Option (Outcome F) × State F
  check_load load s =
      let s' = record s { load = some load } in
      if load.status == "clean" then (none, s') else (
        some (
            apply_load_result (some load)
              (record (blocked "scheduled" (or_else "network_load_unknown" load.status) "load" "") {
                load_status = load.status;
                figures = with_rates load.figures zero_figures;
              })),
        s',
      )

  unfoldable pub after_baseline : Answers F → State F → Option (Outcome F) × State F
  unfolding check_load
  after_baseline a s = if job.kind == "throughput" then check_load (guarded a.load) s else (none, s)

  unfoldable pub before_attempt : Answers F → State F → Option (Outcome F) × State F
  unfolding after_baseline
  before_attempt a s =
      let baseline = checked "network_baseline_unavailable" a.baseline in
      let s' = record s { observed = true; ready = baseline.available } in
      if not baseline.available
      then (
        some (
            blocked "paused" (or_else "network_baseline_unavailable" baseline.error_code) "baseline"
              baseline.target),
        s',
      )
      else if s.observed && not s.ready
      then (if a.stopped
          then (some (blocked "cancelled" "cancelled" "baseline" ""), s')
          else if not a.recovery.available
          then (
            some (
                blocked "paused" (or_else "network_baseline_unavailable" a.recovery.error_code)
                  "baseline_recovery" a.recovery.target),
            record s' { ready = false },
          )
          else after_baseline a (record s' { ready = true }))
      else after_baseline a s'
