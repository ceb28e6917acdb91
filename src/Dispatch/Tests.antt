-- ===== src/Dispatch/Tests.antt =====
-- A desk with one pending job, and room for one more.
use bagualu.Base.{
  ℕ, String, ◌≡◌, refl, true, false, Option, none, some, [], ◌∷◌, arith, ◌==◌, nat_eq, string_eq,
  str_eq_iff, if◌then◌else◌,
}
use bagualu.Queue.{TestQueue}
use bagualu.Orchestrator.{LoadFigures, TestJob, blocked}
use bagualu.Dispatch.{Desk, submit_job, cancel_job}
use bagualu.Dispatch.Withdrawn.{IsNew, submit_job-cancel_job}

abbrev job : String → TestJob
job i = record { id = i; node_id = "n1"; kind = "ping"; retry = 0 }

abbrev queue : TestQueue
queue = record {
  queue = record { id = "j1"; node_id = "n1"; kind = "ping" } ∷ [];
  running = false;
  running_id = "";
  running_node_id = "";
  running_kind = "";
  running_cancel = none;
  worker = true;
  max_pending = 2;
  notify = true;
}

abbrev known : String → Option TestJob
known t = if t == "j1" then some (job "j1") else none

abbrev desk : Desk
desk = record { q = queue; jobs = known }

j2-IsNew : IsNew "j2" desk
j2-IsNew = record {
  idle = refl;
  absent = ((λ same. let differ = (str_eq_iff "j1" "j2").1 same in absurd (ground arith)), tt);
  unknown = refl;
}

abbrev numbers : LoadFigures ℕ
numbers = record {
  upload_bps = 0;
  download_bps = 0;
  before = record { download_bytes = 0; upload_bytes = 0 };
  after = record { download_bytes = 0; upload_bytes = 0 };
  download_capacity_bps = 0;
  upload_capacity_bps = 0;
  threshold_bps = 0;
  sample_duration_ms = 0;
}

submit_job-cancel_job_example :
    let (accepted, d') = submit_job (job "j2") desk in
    let (found, outcome, d'') = cancel_job numbers "j2" d' in
    (accepted ≡ true)
    × (found ≡ accepted)
    × (outcome ≡ (
        if accepted
        then some (blocked numbers (job "j2") "cancelled" "cancelled" "queue" "")
        else none))
    × (d''.q.queue ≡ queue.queue)
    × ((t : String) → d''.jobs t ≡ known t)
submit_job-cancel_job_example = submit_job-cancel_job numbers (job "j2") desk j2-IsNew
