-- ===== src/Orchestrator/Tests.antt =====
-- A throughput test whose first run fails and whose second succeeds.
use bagualu.Base.{ℕ, zero, suc, ◌≡◌, refl, Bool, true, false, Option, none, some}
use bagualu.Orchestrator.{
  LoadFigures, Outcome, TestJob, Answers, State, Error, BaselineResult, LoadResult, wrap_job, loop,
  contend,
}
use bagualu.Orchestrator.Accepted.{Some}
use bagualu.Orchestrator.Outcomes.{wrap_job-success, wrap_job-IsOfJob, IsProven, IsOfJob, Held}

abbrev job : TestJob
job = record { id = "j1"; node_id = "n1"; kind = "throughput"; retry = 2 }

abbrev numbers : ℕ → LoadFigures ℕ
numbers n = record {
  upload_bps = n;
  download_bps = n;
  before = record { download_bytes = 0; upload_bytes = 0 };
  after = record { download_bytes = n; upload_bytes = n };
  download_capacity_bps = 10;
  upload_capacity_bps = 10;
  threshold_bps = 1;
  sample_duration_ms = 5000;
}

abbrev run : Bool → ℕ → Outcome ℕ
run success traffic = record {
  job_id = "";
  node_id = "";
  kind = "";
  status = "success";
  error_code = "";
  error_detail = "";
  failure_stage = "";
  success = success;
  infrastructure = false;
  baseline_target = "";
  load_status = "";
  figures = numbers 0;
  node_name = "JP-1";
  traffic_before = 10;
  traffic_after = traffic;
}

abbrev up : BaselineResult
up = record { available = true; error_code = ""; target = "1.1.1.1" }

abbrev clean : Option (LoadResult ℕ)
clean = some (record { status = "clean"; figures = numbers 7 })

abbrev answers : Outcome ℕ → Option Error → Answers ℕ
answers outcome error = record {
  baseline = some up;
  stopped = false;
  recovery = up;
  load = clean;
  source_failed = false;
  outcome = outcome;
  error = error;
  after = up;
  contention = clean;
  backoff = none;
}

abbrev script : ℕ → Answers ℕ
script zero =
    answers (run false 10) (some (record { message = "reset"; code = none; is_canceled = false }))
script (suc k) = answers (run true 4096) none

abbrev fresh : State ℕ
fresh = record { observed = false; ready = false; load = none }

abbrev result : Outcome ℕ
result = record (run true 4096) {
  job_id = "j1";
  node_id = "n1";
  kind = "throughput";
  baseline_target = "1.1.1.1";
  load_status = "clean";
  figures = numbers 7;
}

-- A contention check without a status leaves the numbers of the load before it, but for the rates.
without_status :
    contend (numbers 0) job (some (record { status = ""; figures = numbers 9 })) (run true 4096)
    ≡ record (run true 4096) {
      success = false;
      status = "scheduled";
      failure_stage = "load";
      infrastructure = true;
      figures = record (numbers 0) { upload_bps = 9; download_bps = 9 };
    }
unfolding contend
without_status = refl

retried : (wrap_job (numbers 0) job script fresh).0 ≡ result
unfolding wrap_job
retried = refl

wrap_job-success_example : Some (numbers 0) job 0 2 script × IsProven (numbers 0) job result
unfolding wrap_job
wrap_job-success_example = wrap_job-success (numbers 0) job script fresh refl

wrap_job-IsOfJob_example :
    IsOfJob (numbers 0) job result × Held (numbers 0) job (loop (numbers 0) job 2 0 script fresh).0
unfolding wrap_job
wrap_job-IsOfJob_example = wrap_job-IsOfJob (numbers 0) job script fresh
