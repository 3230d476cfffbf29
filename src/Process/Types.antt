-- ===== src/Process/Types.antt =====
-- internal/process/process_command.go: requests, the result of a start, and what the loop does outside.
-- A channel, a command and a context are known by a number.
use llemon_swap.Base.{ℕ, Bool, Option, none, some, List, [], ◌∷◌, ◌++◌, if◌then◌else◌}
use llemon_swap.Scheduler.State.{ProcessState}

pub data ProcessError : Type 0 where
  aborted shutting_down exited_unexpectedly was_stopped : ProcessError
  not_startable : ProcessState → ProcessError
  proxy_missing bad_command bad_proxy_url start_failed exited_early check_timed_out : ProcessError

-- `block` is set by Run, and not by EnsureReady.
pub record StartReq : Type 0 where
  pub timeout : ℕ
  pub respond : ℕ
  pub block : Bool

pub record StopReq : Type 0 where
  pub timeout : ℕ
  pub respond : ℕ

pub record StartResult : Type 0 where
  pub cmd : Option ℕ
  pub cmd_done : Option ℕ
  pub cancel : Option ℕ
  pub handler : Option ℕ
  pub err : Option ProcessError

pub data ProcessEffect : Type 0 where
  reply : ℕ → Option ProcessError → ProcessEffect
  state_change : ProcessState → ProcessState → ProcessEffect
  stop_signal kill_tree : ℕ → ProcessEffect
  cancel_context : ℕ → ProcessEffect
  cancel_start watch_ttl : ProcessEffect

-- What select of killProcess sees: whether the process exits within the graceful timeout.
unfoldable pub kill_process : Option ℕ → Option ℕ → Bool → List ProcessEffect
kill_process cmd none in_time = []
kill_process none (some cancel) in_time = cancel_context cancel ∷ []
kill_process (some c) (some cancel) in_time =
    cancel_context cancel ∷ (if in_time then [] else kill_tree c ∷ []) ++ stop_signal c ∷ []
