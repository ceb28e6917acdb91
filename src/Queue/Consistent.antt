-- ===== src/Queue/Consistent.antt =====
-- The invariant of TestQueue in internal/application/queue.go.
use bagualu.Queue.Taken.{take_next-taken, take_head-some}
use bagualu.Base.{
  ℕ, ◌≤◌, max, String, ◌≡◌, refl, sym, ap, ◌≢◌, ◌⊎◌, inl, inr, Bool, true, false, ◌&&◌, Option,
  none, some, List, [], ◌∷◌, arith, leb, ◌==◌, nat_eq, string_eq, Bool-cases, length, length-append,
  leb-false, list_cases,
}
use mathlib.Core.Option.{some-injective}
use bagualu.Queue.{
  TestRequest, TestQueue, new_test_queue, remove_first, enqueue, cancel, take_next, take_head,
  cancel_context, finish,
}
use bagualu.Queue.Worker.{
  created, enqueued, began, received, took, emptied, finished, cancelled, ended, end_run, receive,
  begin, Phase, System, Reach,
}

abbrev pub Idle : TestQueue → Type 0
Idle q =
    (q.running ≡ false)
    × (q.running_id ≡ "")
    × (q.running_node_id ≡ "")
    × (q.running_kind ≡ "")
    × (q.running_cancel ≡ none)

abbrev pub Busy : TestRequest → TestQueue → Type 0
Busy request q =
    (q.running ≡ true)
    × (q.running_id ≡ request.id)
    × (q.running_node_id ≡ request.node_id)
    × (q.running_kind ≡ request.kind)
    × (q.running_cancel ≢ none)

-- The fields of the queue against the place of the worker.
abbrev pub Agrees : Phase → TestQueue → Type 0
Agrees Phase.stopped q = (q.worker ≡ false) × Idle q
Agrees Phase.waiting q = (q.worker ≡ true) × Idle q
Agrees Phase.draining q = (q.worker ≡ true) × Idle q
Agrees (Phase.executing request) q = (q.worker ≡ true) × Busy request q

-- Whether a worker that waits, or a Run that comes, is woken for the pending tasks.
abbrev pub Awake : Phase → TestQueue → Type 0
Awake Phase.stopped q = (q.queue ≡ []) ⊎ (q.notify ≡ true)
Awake Phase.waiting q = (q.queue ≡ []) ⊎ (q.notify ≡ true)
Awake _ q = Unit

pub record IsConsistent (n : ℕ) (s : System) : Type 0 where
  pub room : s.q.max_pending ≡ max 1 n
  pub bounded : length s.q.queue ≤ s.q.max_pending
  pub agrees : Agrees s.phase s.q
  pub awake : Awake s.phase s.q

abbrev sys : Phase → TestQueue → System
sys p q = record { q = q; phase = p }

length-remove_first : (i : String) (l : List TestRequest) → length (remove_first i l).1 ≤ length l
unfolding remove_first
length-remove_first i [] = omega arith
length-remove_first i (request ∷ rest) =
    let rec = length-remove_first i rest in
    elim (Bool-cases (request.id == i)) [ inl e ↦ rw e (omega arith) | inr e ↦ rw e (omega arith) ]

created-IsConsistent : (n : ℕ) → IsConsistent n (sys Phase.stopped (new_test_queue n))
unfolding new_test_queue
created-IsConsistent n = ground arith

Agrees-enqueue :
    (p : Phase) (q : TestQueue) (l : List TestRequest) (b : Bool)
    → Agrees p q
    → Agrees p (record q { queue = l; notify = b })
Agrees-enqueue Phase.stopped q l b h = h
Agrees-enqueue Phase.waiting q l b h = h
Agrees-enqueue Phase.draining q l b h = h
Agrees-enqueue (Phase.executing request) q l b h = h

Awake-notify : (p : Phase) (q : TestQueue) → q.notify ≡ true → Awake p q
Awake-notify Phase.stopped q e = inr e
Awake-notify Phase.waiting q e = inr e
Awake-notify Phase.draining q e = tt
Awake-notify (Phase.executing request) q e = tt

enqueue-IsConsistent :
    (n : ℕ) (p : Phase) (q q' : TestQueue) (request : TestRequest)
    → IsConsistent n (sys p q)
    → enqueue request q ≡ some q'
    → IsConsistent n (sys p q')
unfolding enqueue
enqueue-IsConsistent n p q q' request c = elim (Bool-cases (leb q.max_pending (length q.queue))) [
  | inl full ↦ rw full (λ e. cc e)
  | inr space ↦ rw space (λ e. rw (sym (some-injective _ _ e)) (record {
    room = c.room;
    bounded = omega (
      arith,
      c.bounded,
      length-append q.queue (request ∷ []),
      leb-false q.max_pending (length q.queue) space,
    );
    agrees = Agrees-enqueue p q _ true c.agrees;
    awake = Awake-notify p _ refl;
  }))
]

take-IsConsistent :
    (n : ℕ) (q q' : TestQueue) (request : TestRequest)
    → IsConsistent n (sys Phase.draining q)
    → take_next q ≡ some (request, q')
    → IsConsistent n (sys (Phase.executing request) q')
take-IsConsistent n q q' request c e =
    let t = take_next-taken q q' request e in
    rw t.1 (record {
      room = c.room;
      bounded = omega (arith, c.bounded, ap length t.0);
      agrees = (c.agrees.0, (refl, refl, refl, refl, λ h. cc h));
      awake = tt;
    })

cancel_context-none : (c : Option Bool) → cancel_context c ≡ none → c ≡ none
unfolding cancel_context
cancel_context-none none e = refl
cancel_context-none (some b) e = absurd (cc e)

Agrees-cancelled :
    (p : Phase) (q : TestQueue)
    → Agrees p q
    → Agrees p (record q { running_cancel = cancel_context q.running_cancel })
unfolding cancel_context
Agrees-cancelled Phase.stopped q h = ground arith
Agrees-cancelled Phase.waiting q h = ground arith
Agrees-cancelled Phase.draining q h = ground arith
Agrees-cancelled (Phase.executing request) q h =
    (h.0, (h.1.0, h.1.1, h.1.2, h.1.3, λ e. h.1.4 (cancel_context-none q.running_cancel e)))

Agrees-queue :
    (p : Phase) (q : TestQueue) (l : List TestRequest)
    → Agrees p q
    → Agrees p (record q { queue = l })
Agrees-queue Phase.stopped q l h = h
Agrees-queue Phase.waiting q l h = h
Agrees-queue Phase.draining q l h = h
Agrees-queue (Phase.executing request) q l h = h

Awake-cancelled :
    (p : Phase) (q : TestQueue)
    → Awake p q
    → Awake p (record q { running_cancel = cancel_context q.running_cancel })
Awake-cancelled Phase.stopped q h = h
Awake-cancelled Phase.waiting q h = h
Awake-cancelled Phase.draining q h = h
Awake-cancelled (Phase.executing request) q h = h

empty-remove_first : (i : String) (l : List TestRequest) → l ≡ [] → (remove_first i l).1 ≡ []
unfolding remove_first
empty-remove_first i [] e = refl
empty-remove_first i (x ∷ l) e = absurd (cc e)

Awake-remove :
    (i : String) (p : Phase) (q : TestQueue)
    → Awake p q
    → Awake p (record q { queue = (remove_first i q.queue).1 })
Awake-remove i Phase.stopped q (inl e) = inl (empty-remove_first i q.queue e)
Awake-remove i Phase.stopped q (inr e) = inr e
Awake-remove i Phase.waiting q (inl e) = inl (empty-remove_first i q.queue e)
Awake-remove i Phase.waiting q (inr e) = inr e
Awake-remove i Phase.draining q h = tt
Awake-remove i (Phase.executing request) q h = tt

cancel-IsConsistent :
    (n : ℕ) (p : Phase) (q : TestQueue) (i : String)
    → IsConsistent n (sys p q)
    → IsConsistent n (sys p (cancel i q).1)
unfolding cancel
cancel-IsConsistent n p q i c = elim (Bool-cases (q.running && (q.running_id == i))) [
  | inl now ↦ rw now (record {
    room = c.room;
    bounded = c.bounded;
    agrees = Agrees-cancelled p q c.agrees;
    awake = Awake-cancelled p q c.awake;
  })
  | inr later ↦ rw later (elim (Bool-cases (remove_first i q.queue).0) [
    | inl found ↦ rw found (record {
      room = c.room;
      bounded = omega (arith, c.bounded, length-remove_first i q.queue);
      agrees = Agrees-queue p q _ c.agrees;
      awake = Awake-remove i p q c.awake;
    })
    | inr missing ↦ rw missing c
  ])
]

Agrees-worker :
    (p : Phase) (q : TestQueue)
    → Agrees p q
    → Awake p q
    → q.worker ≡ false
    → Idle q × Awake Phase.waiting q
Agrees-worker Phase.stopped q h a e = (h.1, a)
Agrees-worker Phase.waiting q h a e = absurd (ground arith)
Agrees-worker Phase.draining q h a e = absurd (ground arith)
Agrees-worker (Phase.executing request) q h a e = absurd (ground arith)

begin-IsConsistent :
    (n : ℕ) (p : Phase) (q q' : TestQueue)
    → IsConsistent n (sys p q)
    → begin q ≡ some q'
    → IsConsistent n (sys Phase.waiting q')
unfolding begin
begin-IsConsistent n p q q' c = elim (Bool-cases q.worker) [
  | inl on ↦ rw on (λ e. absurd (cc e))
  | inr off ↦
      let idle = Agrees-worker p q c.agrees c.awake off in
      rw off (λ e.
        rw (sym (some-injective _ _ e))
          (record { room = c.room; bounded = c.bounded; agrees = (refl, idle.0); awake = idle.1 }))
]

empty-IsConsistent :
    (n : ℕ) (q : TestQueue)
    → IsConsistent n (sys Phase.draining q)
    → take_next q ≡ none
    → IsConsistent n (sys Phase.waiting q)
unfolding take_next take_head
empty-IsConsistent n q c e = elim (list_cases q.queue) [
  | inl empty ↦ record { room = c.room; bounded = c.bounded; agrees = c.agrees; awake = inl empty }
  | inr (x, xs, more) ↦ absurd (take_head-some q.queue q x xs more e)
]

-- In every state that a queue made by NewTestQueue(n) can reach, at most max(1, n) tasks are
-- pending; the field worker is set exactly while a Run is at work, so that another Run returns;
-- the running fields are those of the task that is executed, with a context, and are cleared
-- otherwise; and while a task is pending and the worker waits or is stopped, notify holds a token,
-- so that no wake-up is lost.
pub Reach-IsConsistent :
    {n : ℕ} {a s r : List TestRequest} {y : System} → Reach n a s r y → IsConsistent n y
unfolding finish end_run receive
Reach-IsConsistent {n = n} created = created-IsConsistent n
Reach-IsConsistent (enqueued request h e) =
    enqueue-IsConsistent _ _ _ _ request (Reach-IsConsistent h) e
Reach-IsConsistent (began h e) = begin-IsConsistent _ _ _ _ (Reach-IsConsistent h) e
Reach-IsConsistent (received h e) =
    let c = Reach-IsConsistent h in
    record { room = c.room; bounded = c.bounded; agrees = c.agrees; awake = tt }
Reach-IsConsistent (took request h e) = take-IsConsistent _ _ _ request (Reach-IsConsistent h) e
Reach-IsConsistent (emptied h e) = empty-IsConsistent _ _ (Reach-IsConsistent h) e
Reach-IsConsistent (finished h) =
    let c = Reach-IsConsistent h in
    record {
      room = c.room;
      bounded = c.bounded;
      agrees = (c.agrees.0, (refl, refl, refl, refl, refl));
      awake = tt;
    }
Reach-IsConsistent (cancelled i h) = cancel-IsConsistent _ _ _ i (Reach-IsConsistent h)
Reach-IsConsistent (ended h) =
    let c = Reach-IsConsistent h in
    record { room = c.room; bounded = c.bounded; agrees = (refl, c.agrees.1); awake = c.awake }
