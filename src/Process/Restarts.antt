-- ===== src/Process/Restarts.antt =====
-- The goroutine of Monitor in internal/infrastructure/mihomo/process.go among Start, Stop and the
-- exits of the process.
use bagualu.Base.{
  ℕ, ◌+◌, ◌≤◌, ◌≡◌, refl, inl, inr, Bool, true, false, Option, none, some, arith, if◌then◌else◌,
  Bool-cases,
}
use bagualu.Process.{
  ProcessManager, new_process_manager, start_process, launch, exit_process, clear_command,
  request_stop, decide_restart, mark_failed,
}

-- Where the goroutine is: not begun, at the head of its loop, waiting for the command's end,
-- waiting for the backoff, past its last test of stopRequested, past a Start that failed, or
-- returned.
pub data Stage : Type 0 where
  unwatched looping backing_off restarting failing returned : Stage
  watching : ℕ → Stage

-- What the read of m.done at the head of the loop leads to.
watch_done : Option ℕ → Stage
watch_done none = returned
watch_done (some d) = watching d

unfoldable pub watch : ProcessManager → Stage
unfolding watch_done
watch m = watch_done m.done

-- What a test of stopRequested after the backoff leads to.
unfoldable pub after_backoff : ProcessManager → Stage
after_backoff m = if m.stop_requested then returned else restarting

-- Whether the goroutine waits for the command's end or for the backoff, and not for the mutex.
abbrev pub is_waiting : Stage → Bool
is_waiting (watching d) = true
is_waiting backing_off = true
is_waiting _ = false

-- The states that a manager with one Monitor can reach, with the number of its restarts; each step
-- is one region under the mutex.
pub data Reach (max_restarts : ℕ) : ℕ → ProcessManager → Stage → Type 0 where
  made : Reach max_restarts 0 new_process_manager unwatched
  started :
      {n : ℕ} {m : ProcessManager} {g : Stage} (starts : Bool)
      → Reach max_restarts n m g
      → Reach max_restarts n (start_process starts m).1 g
  monitored :
      {n : ℕ} {m : ProcessManager}
      → Reach max_restarts n m unwatched
      → Reach max_restarts n m looping
  looked :
      {n : ℕ} {m : ProcessManager}
      → Reach max_restarts n m looping
      → Reach max_restarts n m (watch m)
  exited :
      {n : ℕ} {m : ProcessManager} {g : Stage}
      → Reach max_restarts n m g
      → Reach max_restarts n (exit_process m) g
  cleared :
      {n : ℕ} {m : ProcessManager} {g : Stage} (cmd : ℕ)
      → Reach max_restarts n m g
      → Reach max_restarts n (clear_command cmd m) g
  stop_asked :
      {n : ℕ} {m : ProcessManager} {g : Stage}
      → Reach max_restarts n m g
      → Reach max_restarts n (request_stop m) g
  -- ctx is done while the goroutine waits
  cancelled :
      {n : ℕ} {m : ProcessManager} {g : Stage}
      → is_waiting g ≡ true
      → Reach max_restarts n m g
      → Reach max_restarts n m returned
  decided :
      {n : ℕ} {m : ProcessManager} {d : ℕ}
      → Reach max_restarts n m (watching d)
      → Reach max_restarts n
          (decide_restart max_restarts m).1
          (if (decide_restart max_restarts m).0 then backing_off else returned)
  waited :
      {n : ℕ} {m : ProcessManager}
      → Reach max_restarts n m backing_off
      → Reach max_restarts n m (after_backoff m)
  restarted :
      {n : ℕ} {m : ProcessManager} (starts : Bool)
      → Reach max_restarts n m restarting
      → Reach max_restarts
          (n + 1)
          (start_process starts m).1
          (if (start_process starts m).0 then looping else failing)
  gave_up :
      {n : ℕ} {m : ProcessManager}
      → Reach max_restarts n m failing
      → Reach max_restarts n (mark_failed m) returned

-- The restarts that are counted but not yet made.
abbrev owed : Stage → ℕ
owed backing_off = 1
owed restarting = 1
owed _ = 0

start-count :
    (starts : Bool) (m : ProcessManager)
    → (start_process starts m).1.restart_count ≡ m.restart_count
unfolding start_process launch
start-count starts m = ground arith

clear-count : (cmd : ℕ) (m : ProcessManager) → (clear_command cmd m).restart_count ≡ m.restart_count
unfolding clear_command
clear-count cmd m = ground arith

watch_done-owed : (d : Option ℕ) → owed (watch_done d) ≡ 0
unfolding watch_done
watch_done-owed none = refl
watch_done-owed (some d) = refl

watch-owed : (m : ProcessManager) → owed (watch m) ≡ 0
unfolding watch
watch-owed m = watch_done-owed m.done

-- Monitor restarts the process at most maxRestarts times, whatever Start, Stop and the process do
-- meanwhile: RestartCount stays at most maxRestarts, and it counts each restart that Monitor makes
-- or waits to make.
pub Reach-restarts :
    {max_restarts n : ℕ} {m : ProcessManager} {g : Stage}
    → Reach max_restarts n m g
    → (n + owed g ≤ m.restart_count) × (m.restart_count ≤ max_restarts)
unfolding new_process_manager exit_process request_stop decide_restart after_backoff mark_failed
Reach-restarts made = (omega arith, omega arith)
Reach-restarts (started {m = m} starts r) = rw (start-count starts m) (Reach-restarts r)
Reach-restarts (monitored r) = Reach-restarts r
Reach-restarts (looked {m = m} r) = rw (watch-owed m) (Reach-restarts r)
Reach-restarts (cancelled {g = g} w r) = let h = Reach-restarts r in (omega (arith, h), h.1)
Reach-restarts (exited r) = Reach-restarts r
Reach-restarts (cleared {m = m} cmd r) = rw (clear-count cmd m) (Reach-restarts r)
Reach-restarts (stop_asked r) = Reach-restarts r
Reach-restarts (decided {m = m} r) = let h = Reach-restarts r in ground arith
Reach-restarts (waited r) = let h = Reach-restarts r in ground arith
Reach-restarts (restarted {m = m} starts r) =
    let h = Reach-restarts r in
    let same = start-count starts m in
    elim (Bool-cases (start_process starts m).0) [
      | inl e ↦ rw e (omega (arith, h, same), omega (arith, h, same))
      | inr e ↦ rw e (omega (arith, h, same), omega (arith, h, same))
    ]
Reach-restarts (gave_up r) = Reach-restarts r
