-- ===== src/Queue/Tests.antt =====
-- A queue of two places at concrete tasks.
use bagualu.Base.{◌≡◌, refl, true, false, none, some, List, [], ◌∷◌, arith}
use bagualu.Queue.{TestRequest, TestQueue, new_test_queue, enqueue, take_next, cancel, current}
use bagualu.Queue.Worker.{
  executing, created, enqueued, began, received, took, cancelled, receive, begin, Reach,
}
use bagualu.Queue.Consistent.{IsConsistent, Reach-IsConsistent}
use bagualu.Queue.Live.{IsDone, Reach-IsDone}
use bagualu.Queue.Fifo.{IsFifo, Reach-IsFifo}
use bagualu.Queue.Cancel.{IsCancelled, cancel-IsCancelled}

abbrev ping : TestRequest
ping = record { id = "j1"; node_id = "n1"; kind = "ping" }

abbrev download : TestRequest
download = record { id = "j2"; node_id = "n2"; kind = "throughput" }

abbrev connect : TestRequest
connect = record { id = "j3"; node_id = "n1"; kind = "connectivity" }

-- The queue holds `l`, and no task is running.
abbrev holding : List TestRequest → TestQueue
holding l = record {
  queue = l;
  running = false;
  running_id = "";
  running_node_id = "";
  running_kind = "";
  running_cancel = none;
  worker = true;
  max_pending = 2;
  notify = true;
}

-- `ping` runs, and the queue holds `l`.
abbrev at_work : List TestRequest → TestQueue
at_work l = record (holding l) {
  running = true;
  running_id = "j1";
  running_node_id = "n1";
  running_kind = "ping";
  running_cancel = some false;
  notify = false;
}

full : enqueue connect (holding (ping ∷ download ∷ [])) ≡ none
unfolding enqueue
full = refl

shown : current (at_work (download ∷ [])) ≡ ("j1", "n1", "ping")
unfolding current
shown = refl

-- Two tasks accepted, the first started, the second removed.
second_removed :
    Reach 2
      (ping ∷ download ∷ [])
      (ping ∷ [])
      (download ∷ [])
      (record { q = at_work []; phase = executing ping })
unfolding new_test_queue enqueue take_next begin receive cancel
second_removed = cancelled "j2" (
    took ping (received (enqueued download (enqueued ping (began created refl) refl) refl) refl)
      refl)

Reach-IsConsistent_example : IsConsistent 2 (record { q = at_work []; phase = executing ping })
Reach-IsConsistent_example = Reach-IsConsistent second_removed

Reach-IsFifo_example :
    IsFifo
      (ping ∷ download ∷ [])
      (ping ∷ [])
      (download ∷ [])
      (record { q = at_work []; phase = executing ping })
Reach-IsFifo_example = Reach-IsFifo second_removed

cancel-IsCancelled_example :
    IsCancelled "j3" (at_work (download ∷ connect ∷ [])) ((true, false), at_work (download ∷ []))
unfolding cancel
cancel-IsCancelled_example = cancel-IsCancelled "j3" (at_work (download ∷ connect ∷ []))

-- The first started, the second still pending.
second_pending :
    Reach 2
      (ping ∷ download ∷ [])
      (ping ∷ [])
      []
      (record { q = at_work (download ∷ []); phase = executing ping })
unfolding new_test_queue enqueue take_next begin receive
second_pending =
    took ping (received (enqueued download (enqueued ping (began created refl) refl) refl) refl)
      refl

Reach-IsDone_example :
    IsDone 2
      (ping ∷ download ∷ [])
      (ping ∷ [])
      []
      (record { q = at_work (download ∷ []); phase = executing ping })
      7
Reach-IsDone_example = Reach-IsDone 7 _ second_pending (omega arith)
