-- ===== src/Queue/Drain.antt =====
-- The inner loop of TestQueue.Run in internal/application/queue.go between two receives from notify.
use bagualu.Base.{
  ℕ, zero, suc, ◌<◌, ◌≡◌, refl, ap, ◌∙◌, Option, none, some, List, [], ◌∷◌, arith, length,
}
use bagualu.Queue.{TestRequest, TestQueue, take_next, take_head, finish}

-- for { take; Run; clear }, with no Enqueue or Cancel in between: the tasks that it runs, in order,
-- and the queue at its end. `none` is out of fuel.
ran_first :
    TestRequest → Option (List TestRequest × TestQueue) → Option (List TestRequest × TestQueue)
ran_first request none = none
ran_first request (some (rest, q)) = some (request ∷ rest, q)

pub drain : ℕ → TestQueue → Option (List TestRequest × TestQueue)
unfolding ran_first
drain zero q = none
drain (suc fuel) q = elim (take_next q) [
  | none ↦ some ([], q)
  | some (request, q') ↦ ran_first request (drain fuel (finish q'))
]

-- A loop with more fuel than tasks ends: it runs all the pending tasks once each, in their order,
-- and leaves an empty queue that is otherwise as it was, if no task was running.
pub drain-all :
    (fuel : ℕ) (q : TestQueue) (l : List TestRequest)
    → q.queue ≡ l
    → finish q ≡ q
    → length l < fuel
    → drain fuel q ≡ some (l, record q { queue = [] })
unfolding drain ran_first take_next take_head finish
drain-all zero q l e idle h = absurd (omega arith)
drain-all (suc fuel) q [] e idle h = rw e refl
drain-all (suc fuel) q (x ∷ l) e idle h = rw e (
    ap (ran_first x) (drain-all fuel (record (finish q) { queue = l }) l refl refl (omega arith))
    ∙ ap (λ y. some (x ∷ l, record y { queue = [] })) idle)
