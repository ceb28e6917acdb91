-- ===== src/Scheduler/Tests.antt =====
-- A scheduler without a timer for the cleanup.
use bagualu.Base.{◌≡◌, refl, true, false, List, [], ◌∷◌}
use bagualu.Scheduler.{
  Scheduler, Event, refresh_tick, test_tick, cleanup_tick, done, ScheduledCall, call_refresh,
  call_test, is_ready, Run, starts, ticks, ends,
}

abbrev scheduler : Scheduler
scheduler = record {
  refresh_interval = 3600;
  test_interval = 60;
  cleanup_interval = 0;
  has_refresh = true;
  has_test = true;
  has_cleanup = true;
}

abbrev events : List Event
events = test_tick 60 ∷ refresh_tick ∷ done ∷ []

abbrev calls : List ScheduledCall
calls = call_test 60 ∷ call_refresh ∷ []

never_ready : is_ready scheduler cleanup_tick ≡ false
never_ready = refl

ended : Run scheduler false events calls
ended = ends (ticks refresh_tick (ticks (test_tick 60) starts refl (λ e. cc e)) refl (λ e. cc e))
