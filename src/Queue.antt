-- ===== src/Queue.antt =====
-- TestQueue of internal/application/queue.go: the queue of measurements and its one worker. Each
-- function below is one region under the mutex; `Reach` in the child Worker puts them in sequence.
mod Tests
mod Taken
pub mod Worker
pub mod Consistent
pub mod Fifo
pub mod Cancel
pub mod Drain
pub mod Live
use bagualu.Base.{
  ℕ, String, Bool, true, false, not, ◌&&◌, Option, none, some, List, [], ◌∷◌, ◌++◌, ltb, leb, ◌==◌,
  nat_eq, string_eq, if◌then◌else◌, length,
}

pub record TestRequest : Type 0 where
  pub id : String
  pub node_id : String
  pub kind : String

pub record TestQueue : Type 0 where
  pub queue : List TestRequest
  pub running : Bool
  pub running_id : String
  pub running_node_id : String
  pub running_kind : String
  -- runningCancel: nil, or the cancel function of a context, with whether that is cancelled
  pub running_cancel : Option Bool
  pub worker : Bool
  pub max_pending : ℕ
  -- notify, a channel of capacity 1: whether it holds a token
  pub notify : Bool

pub new_test_queue : ℕ → TestQueue
new_test_queue n = record {
  queue = [];
  running = false;
  running_id = "";
  running_node_id = "";
  running_kind = "";
  running_cancel = none;
  worker = false;
  max_pending = if ltb n 1 then 1 else n;
  notify = false;
}

-- `none` is ErrQueueFull.
unfoldable pub enqueue : TestRequest → TestQueue → Option TestQueue
enqueue request q =
    if leb q.max_pending (length q.queue)
    then none
    else some (record q { queue = q.queue ++ (request ∷ []); notify = true })

-- The region in which the worker takes the head of the queue; `none` where the queue is empty.
pub take_head : List TestRequest → TestQueue → Option (TestRequest × TestQueue)
take_head [] q = none
take_head (request ∷ rest) q = some (
  request,
  record q {
    queue = rest;
    running = true;
    running_id = request.id;
    running_node_id = request.node_id;
    running_kind = request.kind;
    running_cancel = some false;
  },
)

pub take_next : TestQueue → Option (TestRequest × TestQueue)
unfolding take_head
take_next q = take_head q.queue q

-- The region after request.Run.
pub finish : TestQueue → TestQueue
finish q = record q {
  running = false;
  running_id = "";
  running_node_id = "";
  running_kind = "";
  running_cancel = none;
}

pub snapshot : TestQueue → ℕ × Bool
snapshot q = (length q.queue, q.running)

pub current : TestQueue → String × String × String
current q = if q.running then (q.running_id, q.running_node_id, q.running_kind) else ("", "", "")

-- runningCancel() where it is not nil
pub cancel_context : Option Bool → Option Bool
cancel_context none = none
cancel_context (some b) = some true

-- The loop of Cancel over the queue: whether a task has the id, and the queue without the first.
unfoldable pub remove_first : String → List TestRequest → Bool × List TestRequest
remove_first i [] = (false, [])
remove_first i (request ∷ rest) =
    let later = remove_first i rest in
    if request.id == i then (true, rest) else (later.0, request ∷ later.1)

-- (found, running) and the queue that is left
unfoldable pub cancel : String → TestQueue → (Bool × Bool) × TestQueue
unfolding cancel_context remove_first
cancel i q =
    let removed = remove_first i q.queue in
    if q.running && (q.running_id == i)
    then ((true, true), record q { running_cancel = cancel_context q.running_cancel })
    else if removed.0
    then ((true, false), record q { queue = removed.1 })
    else ((false, false), q)

-- What WaitUntilIdle tests at each tick.
pub is_idle : TestQueue → Bool
unfolding snapshot
is_idle q = let (pending, running) = snapshot q in (pending == 0) && not running
