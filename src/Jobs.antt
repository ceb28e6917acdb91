-- ===== src/Jobs.antt =====
-- domain.Job of internal/domain/job.go as the runners of internal/application keep it: the job of an
-- upstream refresh and of a score.
use bagualu.Base.{ℕ, String, Bool, if◌then◌else◌}

-- The status, the progress and the error of a job.
pub record RunnerJob : Type 0 where
  pub status : String
  pub progress : ℕ
  pub error : String

-- The job that Submit saves.
abbrev pub pending_job : RunnerJob
pending_job = record { status = "pending"; progress = 0; error = "" }

-- UpdateStatus, which changes nothing when the database refuses it.
abbrev pub update_job : Bool → String → ℕ → String → RunnerJob → RunnerJob
update_job refused status progress error job =
    if refused then job else record { status = status; progress = progress; error = error }

-- A job whose first update was made.
abbrev pub running_job : RunnerJob
running_job = record { status = "running"; progress = 10; error = "" }
