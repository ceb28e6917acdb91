-- ===== src/Queue/Live.antt =====
-- The worker of TestQueue.Run in internal/application/queue.go when nobody calls Enqueue or Cancel.
use bagualu.Base.{
  ℕ, zero, suc, ◌+◌, ◌*◌, ◌≤◌, ◌<◌, ◌≡◌, refl, sym, ap, ◌∙◌, ◌⊎◌, inl, inr, Bool, true, false,
  Option, none, some, List, [], ◌∷◌, ◌++◌, arith, if◌then◌else◌, Bool-cases, Option-cases, length,
  append_assoc, append-nil,
}
use mathlib.Core.Path.{subst}
use bagualu.Queue.{TestRequest, TestQueue, take_next, finish}
use bagualu.Queue.Taken.{taken, take_next-taken}
use bagualu.Queue.Worker.{
  began, received, took, emptied, finished, receive, begin, Phase, System, Reach,
}
use bagualu.Queue.Consistent.{Reach-IsConsistent}

begun : Option TestQueue → Option (List TestRequest × System)
begun none = none
begun (some q) = some ([], record { q = q; phase = Phase.waiting })

after_take : TestQueue → Option (TestRequest × TestQueue) → Option (List TestRequest × System)
after_take q none = some ([], record { q = q; phase = Phase.waiting })
after_take q (some (request, q')) =
    some (request ∷ [], record { q = q'; phase = Phase.executing request })

-- The next step of the goroutine from each place in its code, with the task that it starts, if
-- any; `none` where it blocks.
step_at : Phase → TestQueue → Option (List TestRequest × System)
unfolding begun after_take
step_at Phase.stopped q = begun (begin q)
step_at Phase.waiting q =
    if q.notify then some ([], record { q = receive q; phase = Phase.draining }) else none
step_at Phase.draining q = after_take q (take_next q)
step_at (Phase.executing request) q = some ([], record { q = finish q; phase = Phase.draining })

pub worker_step : System → Option (List TestRequest × System)
unfolding step_at
worker_step s = step_at s.phase s.q

ran_after :
    List TestRequest → Option (List TestRequest × System) → Option (List TestRequest × System)
ran_after l none = none
ran_after l (some (later, s)) = some (l ++ later, s)

next_step :
    (System → Option (List TestRequest × System))
    → System
    → Option (List TestRequest × System)
    → Option (List TestRequest × System)
unfolding ran_after
next_step again s none = some ([], s)
next_step again s (some (l, s')) = ran_after l (again s')

-- The steps of the worker until it blocks, with the tasks that it starts; `none` is out of fuel.
pub run_worker : ℕ → System → Option (List TestRequest × System)
unfolding worker_step next_step
run_worker zero s = none
run_worker (suc fuel) s = next_step (run_worker fuel) s (worker_step s)

-- How many steps there are at most until it blocks.
abbrev phase_steps : Phase → ℕ
phase_steps Phase.stopped = 1
phase_steps Phase.waiting = 0
phase_steps Phase.draining = 1
phase_steps (Phase.executing request) = 2

abbrev pub steps_left : System → ℕ
steps_left s = 2 * length s.q.queue + (if s.q.notify then 2 else 0) + phase_steps s.phase

-- A step that is made, from a state to a state.
record IsStep (n : ℕ) (a s r : List TestRequest) (from : System) (l : List TestRequest)
    (to : System) : Type 0 where
  fewer : steps_left to < steps_left from
  reached : Reach n a (s ++ l) r to
  queue_left : l ++ to.q.queue ≡ from.q.queue

-- A step, or a worker that waits for nothing.
data Steps (n : ℕ) (a s r : List TestRequest) (from : System) : Type 0 where
  blocks :
      worker_step from ≡ none → from.phase ≡ Phase.waiting → from.q.queue ≡ [] → Steps n a s r from
  steps :
      (l : List TestRequest) (to : System)
      → worker_step from ≡ some (l, to)
      → IsStep n a s r from l to
      → Steps n a s r from

none_pending :
    (l : List TestRequest) (notify : Bool) → notify ≡ false → (l ≡ []) ⊎ (notify ≡ true) → l ≡ []
none_pending l notify e (inl h) = h
none_pending l notify e (inr h) = cc

taken_fewer :
    (request : TestRequest) (q q' : TestQueue)
    → (q.queue ≡ request ∷ q'.queue) × (q' ≡ taken request q'.queue q)
    → steps_left (record { q = q'; phase = Phase.executing request })
      < steps_left (record { q = q; phase = Phase.draining })
taken_fewer request q q' (whole, same) =
    let token : q'.notify ≡ q.notify = ap (λ (x : TestQueue). x.notify) same in
    rw token (omega (arith, ap length whole))

step_from :
    (n : ℕ) (a s r : List TestRequest) (p : Phase) (q : TestQueue)
    → Reach n a s r (record { q = q; phase = p })
    → Steps n a s r (record { q = q; phase = p })
unfolding worker_step
step_from n a s r Phase.stopped q h =
    let free = (Reach-IsConsistent h).agrees.0 in
    let ready : begin q ≡ some (record q { worker = true }) = unfold begin in rw free refl in
    steps [] (record { q = record q { worker = true }; phase = Phase.waiting })
      (rw (ready, begun) refl)
      (record { fewer = omega arith; reached = rw append-nil (began h ready); queue_left = refl })
step_from n a s r Phase.waiting q h = elim (Bool-cases q.notify) [
  | inl e ↦
      steps [] (record { q = receive q; phase = Phase.draining }) (rw e refl)
        (record {
          fewer = unfold receive in rw e (omega arith);
          reached = rw append-nil (received h e);
          queue_left = unfold receive in refl;
        })
  | inr e ↦ blocks (rw e refl) refl (none_pending q.queue q.notify e (Reach-IsConsistent h).awake)
]
step_from n a s r Phase.draining q h = elim (Option-cases (take_next q)) [
  | inl e ↦
      steps [] (record { q = q; phase = Phase.waiting }) (rw (e, after_take) refl)
        (record { fewer = omega arith; reached = rw append-nil (emptied h e); queue_left = refl })
  | inr ((request, q'), e) ↦
      let t = take_next-taken q q' request e in
      steps (request ∷ []) (record { q = q'; phase = Phase.executing request })
        (rw (e, after_take) refl)
        (record {
          fewer = taken_fewer request q q' t;
          reached = took request h e;
          queue_left = sym t.0;
        })
]
step_from n a s r (Phase.executing request) q h =
    steps [] (record { q = finish q; phase = Phase.draining }) refl
      (record {
        fewer = unfold finish in omega arith;
        reached = rw append-nil (finished h);
        queue_left = unfold finish in refl;
      })

-- What the worker has done when it blocks.
abbrev pub IsDone : ℕ → List TestRequest → List TestRequest → List TestRequest → System → ℕ → Type 0
IsDone n a s r from fuel =
    (to : System) × (run_worker fuel from ≡ some (from.q.queue, to))
    × (to.phase ≡ Phase.waiting)
    × (to.q.queue ≡ [])
    × Reach n a (s ++ from.q.queue) r to

IsDone-blocks :
    {n : ℕ} {a s r : List TestRequest} (from : System) (fuel : ℕ)
    → Reach n a s r from
    → worker_step from ≡ none
    → from.phase ≡ Phase.waiting
    → from.q.queue ≡ []
    → IsDone n a s r from (suc fuel)
unfolding run_worker
IsDone-blocks {n} {a} {s} {r} from fuel h e w empty = (
  from,
  rw (e, next_step) (ap (λ l. some (l, from)) (sym empty)),
  w,
  empty,
  subst (λ l. Reach n a l r from) (sym (append-nil s) ∙ ap (λ l. s ++ l) (sym empty)) h,
)

IsDone-steps :
    (n : ℕ) (a s r : List TestRequest) (from : System) (fuel : ℕ) (l : List TestRequest)
    (to : System)
    → worker_step from ≡ some (l, to)
    → l ++ to.q.queue ≡ from.q.queue
    → IsDone n a (s ++ l) r to fuel
    → IsDone n a s r from (suc fuel)
unfolding run_worker
IsDone-steps n a s r from fuel l to e split (end, ran, w, empty, reached) = (
  end,
  rw (e, next_step, ran, ran_after) (ap (λ k. some (k, end)) split),
  w,
  empty,
  rw (← split) (rw append_assoc at reached),
)

run_worker-IsDone :
    (fuel : ℕ) {n : ℕ} {a s r : List TestRequest} (from : System)
    → Reach n a s r from
    → steps_left from < fuel
    → IsDone n a s r from fuel
run_worker-IsDone zero from h short = absurd (omega arith)
run_worker-IsDone (suc fuel) {n} {a} {s} {r} from h short =
    elim (step_from n a s r from.phase from.q h) [
      | blocks e w empty ↦ IsDone-blocks from fuel h e w empty
      | steps l to e st ↦
          IsDone-steps n a s r from fuel l to e st.queue_left
            (run_worker-IsDone fuel to st.reached (omega (arith, st.fewer)))
    ]

phase_steps-le : (p : Phase) → phase_steps p ≤ 2
phase_steps-le Phase.stopped = omega arith
phase_steps-le Phase.waiting = omega arith
phase_steps-le Phase.draining = omega arith
phase_steps-le (Phase.executing request) = omega arith

token_steps-le : (b : Bool) → (if b then 2 else 0) ≤ 2
token_steps-le b = ground arith

-- From every state that the queue can reach, with the worker at any place or about to start, the
-- worker by itself blocks after less than two steps for each pending task and five more; by then it
-- has started each pending task once, in the order of the queue, and it waits with an empty queue in
-- a state that the queue can reach. Nobody calls Enqueue or Cancel in between, and each task ends.
pub Reach-IsDone :
    (fuel : ℕ) {n : ℕ} {a s r : List TestRequest} (from : System)
    → Reach n a s r from
    → 2 * length from.q.queue + 5 ≤ fuel
    → IsDone n a s r from fuel
Reach-IsDone fuel from h short =
    run_worker-IsDone fuel from h
      (omega (arith, phase_steps-le from.phase, token_steps-le from.q.notify))
