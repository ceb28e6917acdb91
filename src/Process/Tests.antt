-- ===== src/Process/Tests.antt =====
-- A process that may be restarted once.
use bagualu.Base.{ℕ, ◌+◌, ◌≤◌, ◌≡◌, refl, true, false, some}
use bagualu.Process.{
  ProcessManager, new_process_manager, start_process, exit_process, clear_command, request_stop,
  decide_restart, has_pid,
}
use bagualu.Process.Restarts.{
  Reach, watching, made, started, monitored, looked, exited, cleared, decided, waited, restarted,
  watch, after_backoff, Reach-restarts,
}

abbrev running : ℕ → ℕ → ProcessManager
running cmd restarts = record {
  command = some cmd;
  exited = false;
  done = some cmd;
  stop_requested = false;
  restart_count = restarts;
  failed = false;
  next = cmd + 1;
}

-- The first command ends, the monitor waits and starts the second.
second_run : Reach 1 1 (running 1 1) (watching 1)
unfolding new_process_manager start_process exit_process clear_command decide_restart watch
    after_backoff
second_run = looked (
    restarted true (waited (decided (cleared 0 (exited (looked (monitored (started true made))))))))

Reach-restarts_example : (1 + 0 ≤ 1) × (1 ≤ 1)
Reach-restarts_example = Reach-restarts second_run

-- Past its last test of stopRequested the monitor starts the process although Stop has returned.
stop_lost :
    has_pid (start_process true (request_stop (record new_process_manager { restart_count = 1 }))).1
    ≡ true
unfolding has_pid start_process request_stop new_process_manager
stop_lost = refl
