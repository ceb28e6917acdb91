-- ===== src/Dispatch/Withdrawn.antt =====
-- A job of internal/application/orchestrator.go that is cancelled while it waits.
use bagualu.Base.{
  String, ◌≡◌, refl, sym, ap, ◌∙◌, inl, inr, true, false, ◌&&◌, Option, none, some, List, [], ◌∷◌,
  ◌++◌, arith, ltb, leb, ◌==◌, nat_eq, string_eq, str_eq_iff, if◌then◌else◌, Bool-cases, length,
}
use bagualu.Queue.{TestRequest, enqueue, cancel, remove_first}
use bagualu.Queue.Cancel.{HasNone}
use bagualu.Orchestrator.{LoadFigures, TestJob, blocked}
use bagualu.Dispatch.{
  Desk, set_job, request_of, submit_job, enqueued, deliver, cancel_job, cancel_known, cancelled_job,
}

remove_first-last :
    (i : String) (l : List TestRequest) (r : TestRequest)
    → HasNone i l
    → r.id ≡ i
    → remove_first i (l ++ (r ∷ [])) ≡ (true, l)
unfolding remove_first
remove_first-last i [] r none_has is =
    let same : (r.id == i) ≡ true = (str_eq_iff r.id i).1 is in rw same refl
remove_first-last i (x ∷ l) r none_has is =
    let rest = remove_first-last i l r none_has.1 is in
    let iff = str_eq_iff x.id i in
    let first = none_has.0 in
    let other : (x.id == i) ≡ false = ground arith in rw (other, rest) refl

-- The job's ID is new: it is not that of the running task, of a pending one or of a known job.
pub record IsNew (i : String) (d : Desk) : Type 0 where
  pub idle : (d.q.running && (d.q.running_id == i)) ≡ false
  pub absent : HasNone i d.q.queue
  pub unknown : d.jobs i ≡ none

restored :
    (i t : String) (job : TestJob) (jobs : String → Option TestJob)
    → jobs i ≡ none
    → set_job i none (set_job i (some job) jobs) t ≡ jobs t
restored i t job jobs unknown = elim (Bool-cases (t == i)) [
  | inr other ↦ rw other refl
  | inl same ↦ rw same (sym (ap jobs ((str_eq_iff t i).0 same) ∙ unknown))
]

module _ {F : Type 0} (zero_figures : LoadFigures F) where
  -- Submit of a job with a new ID and then Cancel of that ID: if the queue has room, Cancel answers
  -- true and delivers one cancelled outcome of the job, an infrastructure one, and if it has none,
  -- Submit fails and Cancel answers false and delivers nothing. In both cases the pending tasks and
  -- the known jobs are as before.
  pub submit_job-cancel_job :
      (job : TestJob) (d : Desk)
      → IsNew job.id d
      → let (accepted, d') = submit_job job d in
        let (found, outcome, d'') = cancel_job zero_figures job.id d' in
        (accepted ≡ ltb (length d.q.queue) d.q.max_pending)
        × (found ≡ accepted)
        × (outcome ≡ (
            if accepted
            then some (blocked zero_figures job "cancelled" "cancelled" "queue" "")
            else none))
        × (d''.q.queue ≡ d.q.queue)
        × ((t : String) → d''.jobs t ≡ d.jobs t)
  unfolding submit_job enqueued enqueue cancel_job cancel_known cancelled_job cancel deliver
  submit_job-cancel_job job d n =
      let gone = remove_first-last job.id d.q.queue (request_of job) n.absent refl in
      let self : (job.id == job.id) ≡ true = (str_eq_iff job.id job.id).1 refl in
      elim (Bool-cases (leb d.q.max_pending (length d.q.queue))) [
        | inl full ↦
            simp (full, self)
              (ground arith, refl, refl, refl, λ t. restored job.id t job d.jobs n.unknown)
        | inr space ↦
            simp (space, self, n.idle, gone)
              (ground arith, refl, refl, refl, λ t. restored job.id t job d.jobs n.unknown)
      ]
