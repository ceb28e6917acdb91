-- ===== src/Scheduler.antt =====
-- Scheduler of internal/application/scheduler.go: its loop over the ticks of three timers. What the
-- callbacks do is not modelled, only which of them is called, and with what.
mod Tests
pub mod Calls
use bagualu.Base.{
  ℕ, ◌≡◌, ◌≢◌, Bool, true, false, not, List, [], ◌∷◌, ◌++◌, ◌==◌, nat_eq, string_eq, if◌then◌else◌,
}

-- An interval of 0 or less is 0; a callback may be nil.
pub record Scheduler : Type 0 where
  pub refresh_interval : ℕ
  pub test_interval : ℕ
  pub cleanup_interval : ℕ
  pub has_refresh : Bool
  pub has_test : Bool
  pub has_cleanup : Bool

-- What ends the wait of a round: a tick of a timer, with its time, or the end of ctx.
pub data Event : Type 0 where
  refresh_tick : Event
  test_tick : ℕ → Event
  cleanup_tick : Event
  done : Event

pub data ScheduledCall : Type 0 where
  call_refresh : ScheduledCall
  call_test : ℕ → ScheduledCall
  call_cleanup : ScheduledCall

-- Whether makeTicker makes a ticker; a channel that is nil is never ready.
abbrev pub make_ticker : ℕ → Bool
make_ticker interval = not (interval == 0)

-- Whether the select of Run can take the event.
abbrev pub is_ready : Scheduler → Event → Bool
is_ready s refresh_tick = make_ticker s.refresh_interval
is_ready s (test_tick now) = make_ticker s.test_interval
is_ready s cleanup_tick = make_ticker s.cleanup_interval
is_ready s done = true

-- The callbacks of a round, of which a nil one is not called.
abbrev pub calls_of : Scheduler → Event → List ScheduledCall
calls_of s refresh_tick = if s.has_refresh then call_refresh ∷ [] else []
calls_of s (test_tick now) = if s.has_test then call_test now ∷ [] else []
calls_of s cleanup_tick = if s.has_cleanup then call_cleanup ∷ [] else []
calls_of s done = []

-- Run has made the calls, in their order, in rounds for the events: `going` while it still waits,
-- and `ended` after the end of ctx.
pub data Run (s : Scheduler) : Bool → List Event → List ScheduledCall → Type 0 where
  starts : Run s true [] []
  ticks :
      {events : List Event} {calls : List ScheduledCall} (event : Event)
      → Run s true events calls
      → is_ready s event ≡ true
      → event ≢ done
      → Run s true (events ++ (event ∷ [])) (calls ++ calls_of s event)
  ends :
      {events : List Event} {calls : List ScheduledCall}
      → Run s true events calls
      → Run s false (events ++ (done ∷ [])) calls
