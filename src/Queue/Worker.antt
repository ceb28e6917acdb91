-- ===== src/Queue/Worker.antt =====
-- The worker goroutine of TestQueue.Run among callers of Enqueue and Cancel: each step is one
-- region under the mutex, one receive from a channel, or the end of a task.
use bagualu.Base.{
  ℕ, String, ◌≡◌, true, false, ◌&&◌, Option, none, some, List, [], ◌∷◌, ◌++◌, ◌==◌, nat_eq,
  string_eq, if◌then◌else◌,
}
use bagualu.Queue.{TestRequest, TestQueue, new_test_queue, enqueue, take_next, finish, cancel}

-- Where the goroutine is: before Run or after its return, at the select, in the inner loop between
-- two tasks, or in request.OnStart and request.Run.
pub data Phase : Type 0 where
  stopped waiting draining : Phase
  executing : TestRequest → Phase

pub record System : Type 0 where
  pub q : TestQueue
  pub phase : Phase

-- The first region of Run; `none` where another Run is at work, and this one returns.
unfoldable pub begin : TestQueue → Option TestQueue
begin q = if q.worker then none else some (record q { worker = true })

-- What the deferred function of Run leaves.
unfoldable pub end_run : TestQueue → TestQueue
end_run q = record q { worker = false }

unfoldable pub receive : TestQueue → TestQueue
receive q = record q { notify = false }

-- The task that Cancel removes from the queue, if any.
abbrev pub first_with : String → List TestRequest → List TestRequest
first_with i [] = []
first_with i (request ∷ rest) = if request.id == i then request ∷ [] else first_with i rest

abbrev pub dropped : String → TestQueue → List TestRequest
dropped i q = if q.running && (q.running_id == i) then [] else first_with i q.queue

-- The states that a queue made by NewTestQueue(n) can reach, with the tasks that Enqueue accepted,
-- that the worker started and that Cancel removed, each in the order of its events.
pub data Reach (n : ℕ)
    : List TestRequest → List TestRequest → List TestRequest → System → Type 0 where
  created : Reach n [] [] [] (record { q = new_test_queue n; phase = stopped })
  enqueued :
      {a s r : List TestRequest} {q q' : TestQueue} {p : Phase} (request : TestRequest)
      → Reach n a s r (record { q = q; phase = p })
      → enqueue request q ≡ some q'
      → Reach n (a ++ (request ∷ [])) s r (record { q = q'; phase = p })
  began :
      {a s r : List TestRequest} {q q' : TestQueue} {p : Phase}
      → Reach n a s r (record { q = q; phase = p })
      → begin q ≡ some q'
      → Reach n a s r (record { q = q'; phase = waiting })
  received :
      {a s r : List TestRequest} {q : TestQueue}
      → Reach n a s r (record { q = q; phase = waiting })
      → q.notify ≡ true
      → Reach n a s r (record { q = receive q; phase = draining })
  took :
      {a s r : List TestRequest} {q q' : TestQueue} (request : TestRequest)
      → Reach n a s r (record { q = q; phase = draining })
      → take_next q ≡ some (request, q')
      → Reach n a (s ++ (request ∷ [])) r (record { q = q'; phase = executing request })
  emptied :
      {a s r : List TestRequest} {q : TestQueue}
      → Reach n a s r (record { q = q; phase = draining })
      → take_next q ≡ none
      → Reach n a s r (record { q = q; phase = waiting })
  finished :
      {a s r : List TestRequest} {q : TestQueue} {request : TestRequest}
      → Reach n a s r (record { q = q; phase = executing request })
      → Reach n a s r (record { q = finish q; phase = draining })
  cancelled :
      {a s r : List TestRequest} {q : TestQueue} {p : Phase} (i : String)
      → Reach n a s r (record { q = q; phase = p })
      → Reach n a s (r ++ dropped i q) (record { q = (cancel i q).1; phase = p })
  ended :
      {a s r : List TestRequest} {q : TestQueue}
      → Reach n a s r (record { q = q; phase = waiting })
      → Reach n a s r (record { q = end_run q; phase = stopped })
