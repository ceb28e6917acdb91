-- ===== src/Queue/Cancel.antt =====
-- Cancel of TestQueue in internal/application/queue.go, on each of its branches.
use bagualu.Base.{
  String, ◌≡◌, refl, ap, ◌≢◌, ◌⊎◌, inl, inr, Bool, true, false, ◌&&◌, List, [], ◌∷◌, ◌++◌, arith,
  ◌==◌, nat_eq, string_eq, str_eq_iff, Bool-cases, All,
}
use bagualu.Queue.{TestRequest, TestQueue, cancel, cancel_context, remove_first}

abbrev pub HasNone : String → List TestRequest → Type 0
HasNone i l = All (λ request. request.id ≢ i) l

-- What Cancel(i) answers, and the queue that it leaves.
pub data IsCancelled (i : String) (q : TestQueue) : (Bool × Bool) × TestQueue → Type 0 where
  -- the running task: its context is cancelled, and the queue stays
  running_task :
      q.running ≡ true
      → q.running_id ≡ i
      → IsCancelled i q
          ((true, true), record q { running_cancel = cancel_context q.running_cancel })
  -- the first pending task with the id leaves the queue, and all else stays
  pending_task :
      (before : List TestRequest) (request : TestRequest) (after : List TestRequest)
      → (q.running ≡ false) ⊎ (q.running_id ≢ i)
      → q.queue ≡ before ++ (request ∷ after)
      → request.id ≡ i
      → HasNone i before
      → IsCancelled i q ((true, false), record q { queue = before ++ after })
  -- no task has the id
  no_task :
      (q.running ≡ false) ⊎ (q.running_id ≢ i)
      → HasNone i q.queue
      → IsCancelled i q ((false, false), q)

pub record IsSplit (i : String) (l rest : List TestRequest) : Type 0 where
  pub before : List TestRequest
  pub request : TestRequest
  pub after : List TestRequest
  pub parts : l ≡ before ++ (request ∷ after)
  pub left : rest ≡ before ++ after
  pub named : request.id ≡ i
  pub first : HasNone i before

differs : (i : String) (request : TestRequest) → (request.id == i) ≡ false → request.id ≢ i
differs i request e = λ same. let iff = str_eq_iff request.id i in absurd (ground arith)

remove_first-IsSplit :
    (i : String) (l : List TestRequest)
    → (remove_first i l).0 ≡ true
    → IsSplit i l (remove_first i l).1
unfolding remove_first
remove_first-IsSplit i [] = λ e. absurd (cc e)
remove_first-IsSplit i (x ∷ l) = elim (Bool-cases (x.id == i)) [
  | inl e ↦ rw e (λ h. record {
    before = [];
    request = x;
    after = l;
    parts = refl;
    left = refl;
    named = (str_eq_iff x.id i).0 e;
    first = tt;
  })
  | inr e ↦ rw e (λ h.
      let s = remove_first-IsSplit i l h in
      record {
        before = x ∷ s.before;
        request = s.request;
        after = s.after;
        parts = ap (λ m. x ∷ m) s.parts;
        left = ap (λ m. x ∷ m) s.left;
        named = s.named;
        first = (differs i x e, s.first);
      })
]

remove_first-HasNone :
    (i : String) (l : List TestRequest) → (remove_first i l).0 ≡ false → HasNone i l
unfolding remove_first
remove_first-HasNone i [] = λ e. tt
remove_first-HasNone i (x ∷ l) = elim (Bool-cases (x.id == i)) [
  | inl e ↦ rw e (λ h. absurd (cc h))
  | inr e ↦ rw e (λ h. (differs i x e, remove_first-HasNone i l h))
]

not_running :
    (i : String) (q : TestQueue)
    → (q.running && (q.running_id == i)) ≡ false
    → (q.running ≡ false) ⊎ (q.running_id ≢ i)
not_running i q e = elim (Bool-cases q.running) [
  | inl on ↦ inr (λ same. let iff = str_eq_iff q.running_id i in absurd (ground arith))
  | inr off ↦ inl off
]

-- Cancel cancels the context of the running task if that has the ID; otherwise it removes the first
-- pending task with the ID and leaves the others in their order; otherwise it changes nothing. Its
-- answer says which of the three it was.
pub cancel-IsCancelled : (i : String) (q : TestQueue) → IsCancelled i q (cancel i q)
unfolding cancel
cancel-IsCancelled i q = elim (Bool-cases (q.running && (q.running_id == i))) [
  | inl now ↦
      rw now (let iff = str_eq_iff q.running_id i in running_task (ground arith) (ground arith))
  | inr later ↦ rw later (elim (Bool-cases (remove_first i q.queue).0) [
    | inl found ↦
        let s = remove_first-IsSplit i q.queue found in
        rw (found, s.left)
          (pending_task s.before s.request s.after (not_running i q later) s.parts s.named s.first)
    | inr missing ↦
        rw missing (no_task (not_running i q later) (remove_first-HasNone i q.queue missing))
  ])
]
