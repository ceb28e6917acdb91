-- ===== src/Process.antt =====
-- ProcessManager of internal/infrastructure/mihomo/process.go: the Mihomo process, its start and
-- stop, and the monitor that restarts it. Each function is one region under the mutex; the process
-- itself, its output and the timers are not modelled.
mod Tests
pub mod Restarts
use bagualu.Base.{
  ℕ, ◌+◌, Bool, true, false, not, ◌&&◌, Option, none, some, leb, ◌==◌, nat_eq, string_eq,
  if◌then◌else◌,
}

-- A command is told from another by its number. The channel m.done belongs to one command.
pub record ProcessManager : Type 0 where
  -- m.command, where it is not nil, and whether its ProcessState is set
  pub command : Option ℕ
  pub exited : Bool
  -- m.done, where it is not nil: the command's number
  pub done : Option ℕ
  pub stop_requested : Bool
  pub restart_count : ℕ
  pub failed : Bool
  -- the number of the next command
  pub next : ℕ

pub new_process_manager : ProcessManager
new_process_manager = record {
  command = none;
  exited = false;
  done = none;
  stop_requested = false;
  restart_count = 0;
  failed = false;
  next = 0;
}

-- The part of Start past its first test; `starts` is whether the binary is there, and the pipes and
-- the process can be made.
launch : Bool → ProcessManager → Bool × ProcessManager
launch starts m =
    let m' = record m { command = none; stop_requested = false; failed = false } in
    if starts
    then (
      true,
      record m' { command = some m.next; exited = false; done = some m.next; next = m.next + 1 },
    )
    else (false, m')

is_some : Option ℕ → Bool
is_some none = false
is_some (some c) = true

-- Start: whether it returns no error, and the manager.
pub start_process : Bool → ProcessManager → Bool × ProcessManager
unfolding launch is_some
start_process starts m = if is_some m.command && not m.exited then (true, m) else launch starts m

-- cmd.Wait returns: the current command has its ProcessState.
pub exit_process : ProcessManager → ProcessManager
exit_process m = record m { exited = true }

same_command : ℕ → Option ℕ → Bool
same_command cmd none = false
same_command cmd (some c) = c == cmd

-- The end of the goroutine that waits for the command `cmd`, and of Stop after `<-done`.
pub clear_command : ℕ → ProcessManager → ProcessManager
unfolding same_command
clear_command cmd m =
    if same_command cmd m.command then record m { command = none; done = none } else m

-- Stop up to the call of killCommand
pub request_stop : ProcessManager → ProcessManager
request_stop m = record m { stop_requested = true }

-- The region of Monitor after `<-done`: whether it goes on to restart.
pub decide_restart : ℕ → ProcessManager → Bool × ProcessManager
decide_restart max_restarts m =
    let failed =
      if not m.stop_requested && leb max_restarts m.restart_count then true else m.failed in
    let restart = not m.stop_requested && not failed in
    (
      restart,
      record m {
        failed = failed;
        restart_count = if restart then m.restart_count + 1 else m.restart_count;
      },
    )

-- The region of Monitor after a Start that failed.
pub mark_failed : ProcessManager → ProcessManager
mark_failed m = record m { failed = true }

-- PID, as whether there is one.
pub has_pid : ProcessManager → Bool
unfolding is_some
has_pid m = is_some m.command && not m.exited
