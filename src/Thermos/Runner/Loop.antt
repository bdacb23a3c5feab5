-- ===== src/Thermos/Runner/Loop.antt =====
-- `TaskRunnerTaskHandler`, `kill` and the transitions of `_run` of
-- src/main/python/apache/thermos/core/runner.py: how a task goes through its states. What happens to
-- the processes and files of the host is a list of effects.
pub mod Killed
use aurora_client.Base.{
  ℕ, Bool, true, false, not, ◌&&◌, ◌||◌, Option, none, some, List, [], ◌∷◌, if◌then◌else◌, Result,
  ok, err, ◌>>=◌,
}
use aurora_client.Base.Int.{ℤ, ◌+ℤ◌}
use aurora_client.Thermos.Planner.{Error}
use aurora_client.Thermos.Ckpt.{
  TaskState, active, cleaning, finalizing, succeeded, task_failed, task_killed, task_lost,
}
use aurora_client.Thermos.Runner.{Runner, transition_to}

pub data PlanName : Type 0 where
  regular_plan finalizing_plan : PlanName

pub data Effect : Type 0 where
  initialize_task kill_processes finalize_task : Effect
  terminate_plan : PlanName → Effect

pub record Machine : Type 0 where
  pub runner : Runner
  -- `_plan`
  pub plan : Option PlanName
  pub recovery : Bool

abbrev unless_recovery : Machine → List Effect → List Effect
unless_recovery m effects = if m.recovery then [] else effects

-- `on_active` and so on, by the state that they are named for; the last four are alike.
unfoldable pub on_task : Machine → ℤ → TaskState → Machine × List Effect
on_task m timestamp active =
    (record m { plan = some regular_plan }, unless_recovery m (initialize_task ∷ []))
on_task m timestamp cleaning = (
  record m { runner = record m.runner { finalization_start = some timestamp } },
  terminate_plan regular_plan ∷ [],
)
on_task m timestamp finalizing = (
  record m {
    plan = some finalizing_plan;
    runner = record m.runner {
      finalization_start = elim m.runner.finalization_start [
        | none ↦ some timestamp
        | some start ↦ some start
      ];
    };
  },
  unless_recovery m (kill_processes ∷ []),
)
on_task m timestamp _ = (m, unless_recovery m (kill_processes ∷ finalize_task ∷ []))

-- The transitions of `_run`, each at the time when the stage of the state has no more work.
unfoldable pub follow : Machine → TaskState → List ℤ → Result Error TaskState
follow m state [] = ok state
follow m state (now ∷ nows) = elim (transition_to m.runner now state) [
  | none ↦ ok state
  | some result ↦ result >>= λ next. follow (on_task m now next).0 next nows
]

-- `assert terminal_status in (TaskState.KILLED, TaskState.LOST)`
abbrev pub may_force : TaskState → Bool
may_force task_killed = true
may_force task_lost = true
may_force _ = false

abbrev pub forced : Machine → ℤ → TaskState → Machine
forced m deadline status = record m {
  runner = record m.runner { preemption_deadline = some deadline; forced_state = some status };
}

-- An active task is set to CLEANING first.
unfoldable pub begin_cleaning : Machine → ℤ → TaskState → Machine × TaskState
begin_cleaning m now active = ((on_task m now cleaning).0, cleaning)
begin_cleaning m now state = (m, state)

-- `kill`, inside `control`: the machine and the state from which `_run` goes on. `none` where the
-- assertion fails.
unfoldable pub kill : Machine → TaskState → ℤ → ℤ → TaskState → Option (Machine × TaskState)
kill m state now preemption_wait status =
    if may_force status
    then some (begin_cleaning (forced m (now +ℤ preemption_wait) status) now state)
    else none
