-- ===== src/Queue/Fifo.antt =====
-- The order of the tasks of TestQueue in internal/application/queue.go, and that none is lost.
use mathlib.Core.Path.{subst}
use bagualu.Base.{
  ℕ, ◌+◌, String, ◌≡◌, refl, sym, ap, inl, inr, Bool, false, ◌&&◌, some, List, [], ◌∷◌, ◌++◌, arith,
  leb, ◌==◌, nat_eq, string_eq, Bool-cases, length, Sublist, skip, keep, stop, Sublist-snoc,
  Sublist-append, Sublist-refl, Sublist-trans, count, count-append, append_assoc,
}
use mathlib.Core.Option.{some-injective}
use bagualu.Queue.{TestRequest, TestQueue, enqueue, cancel, remove_first, finish, new_test_queue}
use bagualu.Queue.Worker.{
  created, enqueued, began, received, took, emptied, finished, cancelled, ended, end_run, receive,
  begin, Reach, System, dropped, first_with,
}
use bagualu.Queue.Taken.{take_next-taken}

remove_first-Sublist : (i : String) (l : List TestRequest) → Sublist (remove_first i l).1 l
unfolding remove_first
remove_first-Sublist i [] = stop
remove_first-Sublist i (x ∷ l) = elim (Bool-cases (x.id == i)) [
  | inl e ↦ rw e (skip x (Sublist-refl l))
  | inr e ↦ rw e (keep x (remove_first-Sublist i l))
]

module _ (p : TestRequest → Bool) where
  count-remove_first :
      (i : String) (l : List TestRequest)
      → count p (first_with i l) + count p (remove_first i l).1 ≡ count p l
  unfolding remove_first
  count-remove_first i [] = refl
  count-remove_first i (x ∷ l) =
      let rec = count-remove_first i l in
      elim (Bool-cases (x.id == i)) [ inl e ↦ rw e (omega arith) | inr e ↦ rw e (omega arith) ]

  remove_first-missing :
      (i : String) (l : List TestRequest) → (remove_first i l).0 ≡ false → first_with i l ≡ []
  unfolding remove_first
  remove_first-missing i [] = λ e. refl
  remove_first-missing i (x ∷ l) = elim (Bool-cases (x.id == i)) [
    | inl e ↦ rw e (λ h. absurd (cc h))
    | inr e ↦ rw e (remove_first-missing i l)
  ]

  count-cancel :
      (i : String) (q : TestQueue)
      → count p (dropped i q) + count p (cancel i q).1.queue ≡ count p q.queue
  unfolding cancel
  count-cancel i q = elim (Bool-cases (q.running && (q.running_id == i))) [
    | inl now ↦ rw now (omega arith)
    | inr later ↦ rw later (elim (Bool-cases (remove_first i q.queue).0) [
      | inl found ↦ rw found (count-remove_first i q.queue)
      | inr missing ↦
          rw missing (omega (arith, ap (count p) (remove_first-missing i q.queue missing)))
    ])
  ]

cancel-Sublist : (i : String) (q : TestQueue) → Sublist (cancel i q).1.queue q.queue
unfolding cancel
cancel-Sublist i q = elim (Bool-cases (q.running && (q.running_id == i))) [
  | inl now ↦ rw now (Sublist-refl q.queue)
  | inr later ↦ rw later (elim (Bool-cases (remove_first i q.queue).0) [
    | inl found ↦ rw found (remove_first-Sublist i q.queue)
    | inr missing ↦ rw missing (Sublist-refl q.queue)
  ])
]

enqueue-queue :
    (request : TestRequest) (q q' : TestQueue)
    → enqueue request q ≡ some q'
    → q'.queue ≡ q.queue ++ (request ∷ [])
unfolding enqueue
enqueue-queue request q q' = elim (Bool-cases (leb q.max_pending (length q.queue))) [
  | inl full ↦ rw full (λ e. absurd (cc e))
  | inr space ↦ rw space (λ e. sym (ap (λ x. x.queue) (some-injective _ _ e)))
]

begin-queue : (q q' : TestQueue) → begin q ≡ some q' → q'.queue ≡ q.queue
unfolding begin
begin-queue q q' = elim (Bool-cases q.worker) [
  | inl on ↦ rw on (λ e. absurd (cc e))
  | inr off ↦ rw off (λ e. sym (ap (λ x. x.queue) (some-injective _ _ e)))
]

pub record IsFifo (a s r : List TestRequest) (y : System) : Type 0 where
  pub order : Sublist (s ++ y.q.queue) a
  pub conserved : (p : TestRequest → Bool) → count p a ≡ count p s + (count p r + count p y.q.queue)

-- The tasks that were started and then those that are pending come in the order in which Enqueue
-- accepted them; and each accepted task is started, removed by Cancel or pending, exactly once.
pub Reach-IsFifo :
    {n : ℕ} {a s r : List TestRequest} {y : System} → Reach n a s r y → IsFifo a s r y
unfolding new_test_queue finish receive end_run
Reach-IsFifo created = record { order = stop; conserved = λ p. refl }
Reach-IsFifo {s = s} (enqueued {a = a} {r = r} {q = q} request h e) =
    let f = Reach-IsFifo h in
    let same = enqueue-queue request _ _ e in
    record {
      order = rw (same, sym (append_assoc s q.queue (request ∷ []))) (Sublist-snoc request f.order);
      conserved = λ p. rw same (
          omega (
            arith,
            f.conserved p,
            count-append p a (request ∷ []),
            count-append p q.queue (request ∷ []),
          ));
    }
Reach-IsFifo (began h e) =
    let f = Reach-IsFifo h in
    let same = begin-queue _ _ e in
    record { order = rw same f.order; conserved = λ p. rw same (f.conserved p) }
Reach-IsFifo (received h e) =
    let f = Reach-IsFifo h in record { order = f.order; conserved = f.conserved }
Reach-IsFifo (took {a = a} {s = s} {q' = q'} request h e) =
    let f = Reach-IsFifo h in
    let t = (take_next-taken _ _ request e).0 in
    record {
      order =
          rw (append_assoc s (request ∷ []) q'.queue) (subst (λ l. Sublist (s ++ l) a) t f.order);
      conserved =
          λ p. omega (arith, f.conserved p, ap (count p) t, count-append p s (request ∷ []));
    }
Reach-IsFifo (emptied h e) =
    let f = Reach-IsFifo h in record { order = f.order; conserved = f.conserved }
Reach-IsFifo (finished h) =
    let f = Reach-IsFifo h in record { order = f.order; conserved = f.conserved }
Reach-IsFifo {s = s} (cancelled {r = r} {q = q} i h) =
    let f = Reach-IsFifo h in
    record {
      order = Sublist-trans f.order (Sublist-append s (cancel-Sublist i q));
      conserved =
          λ p. omega (arith, f.conserved p, count-cancel p i q, count-append p r (dropped i q));
    }
Reach-IsFifo (ended h) =
    let f = Reach-IsFifo h in record { order = f.order; conserved = f.conserved }
