-- ===== src/Executor/Status.antt =====
-- src/main/python/apache/aurora/executor/common/status_checker.py and kill_manager.py. The
-- values of the Mesos enum `TaskState` belong to another package and are a parameter.
pub mod Chain
pub mod Sticky
pub mod Numbers
mod Samples
use aurora_client.Base.{
  ℕ, String, ◌≡◌, Bool, true, false, not, ◌&&◌, ◌||◌, Option, none, some, List, [], ◌∷◌,
  if◌then◌else◌, Eq, ◌==◌,
}

-- The reasons that the executor gives, as the text or the format that makes it.
pub data Reason : Type 0 where
  text internal_error : String → Reason
  disk_limit_exceeded : ℕ → ℕ → Reason
  not_in_time no_reason : Reason
  failed_health_check : Reason → Reason

pub record TaskStates : Type 1 where
  pub State : Type 0
  pub eq : Eq State
  pub task_starting : State
  pub task_running : State
  pub task_failed : State
  pub task_killed : State
  pub starting_running : eq.beq task_starting task_running ≡ false
  pub killed_starting : eq.beq task_killed task_starting ≡ false
  pub killed_running : eq.beq task_killed task_running ≡ false
  pub failed_starting : eq.beq task_failed task_starting ≡ false
  pub failed_running : eq.beq task_failed task_running ≡ false

module _ (m : TaskStates) where
  pub record StatusResult : Type 0 where
    pub reason : Option Reason
    pub status : m.State

module _ (m : TaskStates) where
  abbrev pub is_status : StatusResult m → m.State → Bool
  is_status r state = m.eq.beq r.status state

  -- `StatusResult.__eq__` is False of anything that is no StatusResult, so of a state too.
  unfoldable pub result_eq_state : StatusResult m → m.State → Bool
  result_eq_state r state = false

  -- The `for` loop of `ChainedStatusChecker.status`, from `cur_status` over what the checkers
  -- report.
  unfoldable pub scan :
      Option (StatusResult m) → List (Option (StatusResult m)) → Option (StatusResult m)
  scan cur_status [] = cur_status
  scan cur_status (none ∷ rest) = scan cur_status rest
  scan cur_status (some r ∷ rest) =
      let replaced = scan (some r) rest in
      let kept = scan cur_status rest in
      if is_status r m.task_starting
      then replaced
      else if is_status r m.task_running
      then elim cur_status [
        | none ↦ replaced
        | some c ↦ if result_eq_state c m.task_running then replaced else kept
      ]
      else some r

  unfoldable pub in_terminal_state : Option (StatusResult m) → Bool
  in_terminal_state none = false
  in_terminal_state (some r) = not (is_status r m.task_running) && not (is_status r m.task_starting)

  -- `ChainedStatusChecker`: the state is `_status`; a read returns it after the update.
  unfoldable pub chained_status :
      Option (StatusResult m) → List (Option (StatusResult m)) → Option (StatusResult m)
  chained_status status reports =
      if not (in_terminal_state status) then scan none reports else status

  -- Reads of one chained checker, each with what its checkers report then.
  unfoldable pub polls :
      Option (StatusResult m) → List (List (Option (StatusResult m))) → Option (StatusResult m)
  polls status [] = status
  polls status (reports ∷ rest) = polls (chained_status status reports) rest

pub record KillManager : Type 0 where
  pub killed : Bool
  pub reason : Option Reason

abbrev pub new_kill_manager : KillManager
new_kill_manager = record { killed = false; reason = none }

unfoldable pub kill : KillManager → Reason → KillManager
kill k reason = record { killed = true; reason = some reason }

unfoldable pub kill_status : (m : TaskStates) → KillManager → Option (StatusResult m)
kill_status m k =
    if k.killed then some (record { reason = k.reason; status = m.task_killed }) else none
