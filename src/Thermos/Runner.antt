-- ===== src/Thermos/Runner.antt =====
-- The decisions of `TaskRunner` of src/main/python/apache/thermos/core/runner.py and its stages:
-- health, deadlock, the time that is left, what to launch, and the next state of the task. Times
-- are integers of seconds, and one decision reads the clock once.
pub mod Healthy
pub mod Stages
pub mod Handlers
pub mod Status
pub mod Loop
mod Samples
use aurora_client.Base.{
  ℕ, ◌-◌, ◌+◌, Bool, true, false, not, ◌&&◌, ◌||◌, Option, none, some, List, [], ◌∷◌, ◌++◌,
  if◌then◌else◌, is_nil, length, take, ltb, leb, nat_beq, Result, ok, err, ◌>>=◌,
}
use aurora_client.Base.Int.{ℤ, pos, negsuc, ◌-ℤ◌, ltb_ℤ, leb_ℤ, beq_ℤ}
use aurora_client.Thermos.Planner.{Name, Error}
use aurora_client.Thermos.TaskPlanner.{
  TaskPlanner, runnable_at, waiting_at, min_wait, min_ℤ, infinity, is_complete,
}
use aurora_client.Thermos.Ckpt.{
  TaskState, active, cleaning, finalizing, succeeded, task_failed, task_killed, task_lost,
}

pub record Runner : Type 0 where
  pub regular_plan : TaskPlanner
  pub finalizing_plan : TaskPlanner
  pub max_failures : ℕ
  pub max_concurrency : ℕ
  pub finalization_wait : ℤ
  pub finalization_start : Option ℤ
  pub preemption_deadline : Option ℤ
  -- `_terminal_state`, as `kill` sets it
  pub forced_state : Option TaskState

abbrev pub max_ℤ : ℤ → ℤ → ℤ
max_ℤ a b = if leb_ℤ a b then b else a

-- A deadline of 0 counts as none.
abbrev pub deadline : Option ℤ → Option ℤ
deadline none = none
deadline (some at) = if beq_ℤ at (pos 0) then none else some at

unfoldable pub finalization_remaining : Runner → ℤ → ℤ
finalization_remaining r now = elim (deadline r.preemption_deadline) [
  | some at ↦ max_ℤ (pos 0) (at -ℤ now)
  | none ↦ elim r.finalization_start [
    | none ↦ infinity
    | some start ↦ max_ℤ (pos 0) (r.finalization_wait -ℤ max_ℤ (pos 0) (now -ℤ start))
  ]
]

unfoldable pub deadlocked : TaskPlanner → ℤ → Result Error Bool
deadlocked plan now = do
  runnable ← runnable_at plan now
  waiting ← waiting_at plan now
  ok (is_nil (plan.planner.running ++ runnable ++ waiting) && not (is_complete plan))

abbrev pub under_failure_limit : Runner → Bool
under_failure_limit r =
    nat_beq r.max_failures 0 || ltb (length r.regular_plan.planner.failed) r.max_failures

unfoldable pub is_healthy : Runner → ℤ → Result Error Bool
is_healthy r now =
    deadlocked r.regular_plan now >>= λ stuck. ok (not stuck && under_failure_limit r)

-- `pick_processes` of `_run_plan`; `running` are those that ran when the pass began.
unfoldable pub pick_processes : ℕ → List Name → List Name → List Name
pick_processes max_concurrency running process_list =
    if nat_beq max_concurrency 0
    then process_list
    else take (max_concurrency - length running) process_list

unfoldable pub terminal_state : Runner → ℤ → Result Error TaskState
terminal_state r now = elim r.forced_state [
  | some state ↦ ok state
  | none ↦ is_healthy r now >>= λ healthy. ok (if healthy then succeeded else task_failed)
]

-- `TaskRunnerStage_ACTIVE.run` after its pass over the plan, which launched something or not.
-- `none` says that there is no more work in the stage.
unfoldable pub run_active : Runner → ℤ → Bool → Result Error (Option ℤ)
run_active r now launched = do
  healthy ← is_healthy r now
  if is_complete r.regular_plan || not healthy then ok none else do
    wait ← min_wait r.regular_plan now
    ok (some (if launched then max_ℤ (pos 1) wait else min_ℤ (pos 15) wait))

-- `TaskRunnerStage_CLEANING.run`, with whether processes of the task have pids.
unfoldable pub run_cleaning : Runner → ℤ → Bool → Option ℤ
run_cleaning r now has_running_processes =
    let remaining = finalization_remaining r now in
    if ltb_ℤ (pos 0) remaining && has_running_processes
    then some (min_ℤ remaining (pos 1))
    else none

-- `TaskRunnerStage_FINALIZING.run` after its pass over the plan.
unfoldable pub run_finalizing : Runner → ℤ → Result Error (Option ℤ)
run_finalizing r now = deadlocked r.finalizing_plan now >>= λ stuck.
    let remaining = finalization_remaining r now in
    if stuck
    then ok none
    else if ltb_ℤ (pos 0) remaining && not (is_complete r.finalizing_plan)
    then ok (some (min_ℤ remaining (pos 1)))
    else ok none

-- `transition_to` of the stage of a state; `none` for a state that has no stage.
unfoldable pub transition_to : Runner → ℤ → TaskState → Option (Result Error TaskState)
transition_to r now active = some (ok cleaning)
transition_to r now cleaning =
    some
      (if leb_ℤ (finalization_remaining r now) (pos 0) then terminal_state r now else ok finalizing)
transition_to r now finalizing = some (terminal_state r now)
transition_to r now _ = none
