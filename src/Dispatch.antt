-- ===== src/Dispatch.antt =====
-- Submit, Cancel and deliver of internal/application/orchestrator.go: the map of jobs beside the
-- queue. The wrapped job.Run and OnStart travel with the request; they are not part of its model.
mod Tests
pub mod Withdrawn
use bagualu.Base.{
  String, Bool, true, false, not, Option, none, some, ◌==◌, nat_eq, string_eq, if◌then◌else◌,
}
use bagualu.Queue.{TestQueue, TestRequest, enqueue, cancel}
use bagualu.Orchestrator.{LoadFigures, Outcome, TestJob, blocked}

-- o.queue and o.jobs
pub record Desk : Type 0 where
  pub q : TestQueue
  pub jobs : String → Option TestJob

abbrev pub set_job : String → Option TestJob → (String → Option TestJob) → String → Option TestJob
set_job i job jobs t = if t == i then job else jobs t

abbrev pub request_of : TestJob → TestRequest
request_of job = record { id = job.id; node_id = job.node_id; kind = job.kind }

enqueued : TestJob → Option TestQueue → Desk → Bool × Desk
enqueued job none d = (false, record d { jobs = set_job job.id none d.jobs })
enqueued job (some q) d = (true, record d { q = q })

-- Submit: whether it returns no error
pub submit_job : TestJob → Desk → Bool × Desk
unfolding enqueued
submit_job job d =
    enqueued job (enqueue (request_of job) d.q)
      (record d { jobs = set_job job.id (some job) d.jobs })

-- deliver, without onResult and the load results
pub deliver : String → Desk → Desk
deliver i d = record d { jobs = set_job i none d.jobs }

module _ {F : Type 0} (zero_figures : LoadFigures F) where
  cancelled_job : TestJob → (Bool × Bool) × TestQueue → Desk → Bool × Option (Outcome F) × Desk
  unfolding deliver
  cancelled_job job ((found, running), q) d =
      if not found
      then (false, none, record d { q = q })
      else if running
      then (true, none, record d { q = q })
      else (
        true,
        some (blocked zero_figures job "cancelled" "cancelled" "queue" ""),
        deliver job.id (record d { q = q }),
      )

  cancel_known : String → Option TestJob → Desk → Bool × Option (Outcome F) × Desk
  unfolding cancelled_job
  cancel_known i none d = (false, none, d)
  cancel_known i (some job) d = cancelled_job job (cancel i d.q) d

  -- Cancel: its answer, the outcome that it delivers, if any, and the desk
  pub cancel_job : String → Desk → Bool × Option (Outcome F) × Desk
  unfolding cancel_known
  cancel_job i d = cancel_known i (d.jobs i) d
