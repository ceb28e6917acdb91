-- ===== src/Scheduler/Calls.antt =====
-- Which calls the loop of internal/application/scheduler.go makes.
use bagualu.Base.{
  ℕ, ◌<◌, ◌≡◌, refl, sym, ap, ◌∙◌, Bool, true, false, List, [], ◌∷◌, ◌++◌, arith, if◌then◌else◌,
  All, All-append, append_assoc, append-nil, All-append,
}
use bagualu.Scheduler.{
  Scheduler, Event, refresh_tick, test_tick, cleanup_tick, done, ScheduledCall, call_refresh,
  call_test, call_cleanup, make_ticker, is_ready, calls_of, Run, starts, ticks, ends,
}

-- A call is made only of a callback that is there and whose interval is above 0.
abbrev pub IsScheduled : Scheduler → ScheduledCall → Type 0
IsScheduled s call_refresh = (s.has_refresh ≡ true) × (0 < s.refresh_interval)
IsScheduled s (call_test now) = (s.has_test ≡ true) × (0 < s.test_interval)
IsScheduled s call_cleanup = (s.has_cleanup ≡ true) × (0 < s.cleanup_interval)

abbrev pub all_calls : Scheduler → List Event → List ScheduledCall
all_calls s [] = []
all_calls s (e ∷ l) = calls_of s e ++ all_calls s l

all_calls-append :
    (s : Scheduler) (l m : List Event) → all_calls s (l ++ m) ≡ all_calls s l ++ all_calls s m
all_calls-append s [] m = refl
all_calls-append s (e ∷ l) m =
    ap (λ r. calls_of s e ++ r) (all_calls-append s l m)
    ∙ sym (append_assoc (calls_of s e) (all_calls s l) (all_calls s m))

all_calls_last :
    (s : Scheduler) (l : List Event) (e : Event)
    → all_calls s (l ++ (e ∷ [])) ≡ all_calls s l ++ calls_of s e
all_calls_last s l e =
    all_calls-append s l (e ∷ []) ∙ ap (λ r. all_calls s l ++ r) (append-nil (calls_of s e))

positive : (n : ℕ) → make_ticker n ≡ true → 0 < n
positive n h = ground arith

if_called :
    (P : ScheduledCall → Type 0) (b : Bool) (c : ScheduledCall)
    → (b ≡ true → P c)
    → All P (if b then c ∷ [] else [])
if_called P true c h = (h refl, tt)
if_called P false c h = tt

calls_of-IsScheduled :
    (s : Scheduler) (e : Event) → is_ready s e ≡ true → All (IsScheduled s) (calls_of s e)
calls_of-IsScheduled s refresh_tick h =
    if_called (IsScheduled s) s.has_refresh call_refresh (λ c. (c, positive s.refresh_interval h))
calls_of-IsScheduled s (test_tick now) h =
    if_called (IsScheduled s) s.has_test (call_test now) (λ c. (c, positive s.test_interval h))
calls_of-IsScheduled s cleanup_tick h =
    if_called (IsScheduled s) s.has_cleanup call_cleanup (λ c. (c, positive s.cleanup_interval h))
calls_of-IsScheduled s done h = tt

-- Whatever ticks come and however long, the loop calls only callbacks that are there and whose
-- interval is above 0, and exactly those of the ticks that it took, in their order, a test with the
-- time of its tick.
pub Run-IsScheduled :
    (s : Scheduler) (going : Bool) (events : List Event) (calls : List ScheduledCall)
    → Run s going events calls
    → All (IsScheduled s) calls × (calls ≡ all_calls s events)
Run-IsScheduled s _ _ _ starts = (tt, refl)
Run-IsScheduled s _ _ _ (ticks {events = l} {calls = c} e r ready more) =
    let so_far = Run-IsScheduled s true l c r in
    (
      All-append (IsScheduled s) c (calls_of s e) so_far.0 (calls_of-IsScheduled s e ready),
      ap (λ r. r ++ calls_of s e) so_far.1 ∙ sym (all_calls_last s l e),
    )
Run-IsScheduled s _ _ _ (ends {events = l} {calls = c} r) =
    let so_far = Run-IsScheduled s true l c r in
    (so_far.0, so_far.1 ∙ (sym (append-nil (all_calls s l)) ∙ sym (all_calls_last s l done)))
