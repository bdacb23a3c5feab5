-- ===== src/Thermos/Runner/Handlers.antt =====
-- `TaskRunnerProcessHandler` of src/main/python/apache/thermos/core/runner.py: what the transitions
-- of a process do to the plan of the runner, to the table of its processes and to the multiplexer, and
-- what they kill. A handler reads the state of the runner; the making of a `Process` is an argument.
pub mod Lifecycle
mod Samples
use mathlib.Core.Option
use aurora_client.Base.{
  ℕ, Bool, true, false, not, Option, none, some, List, [], ◌∷◌, ◌++◌, if◌then◌else◌, string_eq,
  Result, ok, err,
}
use aurora_client.Base.Int.{ℤ, pos, ◌-ℤ◌}
use aurora_client.Base.Sets.{member, add, discard}
use aurora_client.Base.Dicts.{get}
use aurora_client.Thermos.Planner
use aurora_client.Thermos.Planner.{Name}
use aurora_client.Thermos.TaskPlanner
use aurora_client.Thermos.TaskPlanner.{TaskPlanner, Outcome}
use aurora_client.Thermos.Ckpt
use aurora_client.Thermos.Ckpt.{
  ProcessState, waiting, forked, running, success, killed, failed, lost, RunnerState, key_eq,
  type_error, assertion_error,
}
use aurora_client.Thermos.Helper.{Platform, Signal, kill_process}
use aurora_client.Thermos.Muxer.{Muxer, MuxerError, register, unregister}

pub data HandlerError : Type 0 where
  of_plan : Planner.Error → HandlerError
  of_muxer : MuxerError → HandlerError
  of_state : Ckpt.Error → HandlerError
  missing_key internal_error not_made attribute_error : HandlerError

pub record Live : Type 0 where
  pub plan : TaskPlanner
  -- the keys of `_task_processes`
  pub task_processes : List Name
  pub watcher : Muxer
  -- the signals that were sent
  pub signals : List Signal

-- What a handler reads: `_recovery`, what psutil says, the state of the runner, the keys of
-- `_process_map`, and whether the constructor of `Process` gives one.
pub record Around : Type 0 where
  pub recovery : Bool
  pub platform : Platform
  pub state : RunnerState
  pub process_map : List Name
  pub is_made : Name → Bool

abbrev pub Handled : Type 0
Handled = Live × Option HandlerError

abbrev with_plan : Live → Outcome → Handled
with_plan l (plan, raised) = (record l { plan = plan }, Option.map of_plan raised)

-- `_task_process_from_process_name`: what it raises.
unfoldable pub make_process : Around → Name → Option HandlerError
make_process a k = elim (get a.state.processes (some k)) [
  | none ↦ some missing_key
  | some runs ↦
      if not (member k a.process_map)
      then some internal_error
      else if a.is_made k
      then none
      else some not_made
]

unfoldable pub on_waiting : Around → Live → Name → Option ℤ → Handled
on_waiting a l k none = (l, some (of_state type_error))
on_waiting a l k (some seq) =
    let listed = record l { task_processes = add k l.task_processes } in
    elim (make_process a k) [
      | some e ↦ (l, some e)
      | none ↦ elim (register l.watcher k (seq -ℤ pos 1)) [
        | err e ↦ (listed, some (of_muxer e))
        | ok watcher ↦ (record listed { watcher = watcher }, none)
      ]
    ]

-- `_cleanup`: the signals that are sent.
unfoldable pub cleanup : Around → Name → Result HandlerError (List Signal)
cleanup a k = if a.recovery then ok [] else elim (get a.state.processes (some k)) [
  | none ↦ err (of_state assertion_error)
  | some runs ↦ elim a.state.header [
    | none ↦ err attribute_error
    | some header ↦ elim (kill_process a.platform header runs.current) [
      | err e ↦ err (of_state e)
      | ok found ↦ ok found.1
    ]
  ]
]

-- `_task_processes.pop(name)` and `_watcher.unregister(name)`.
unfoldable pub forget : Live → Name → Handled
forget l k =
    let popped = record l { task_processes = discard k l.task_processes } in
    if not (member k l.task_processes)
    then (l, some missing_key)
    else elim (unregister l.watcher k) [
      | err e ↦ (popped, some (of_muxer e))
      | ok watcher ↦ (record popped { watcher = watcher }, none)
    ]

-- `on_success`, `on_failed`, `on_lost` and `on_killed`, which end in a report to the plan.
unfoldable pub ended : Around → Live → Name → (TaskPlanner → Outcome) → Handled
ended a l k report = elim (cleanup a k) [
  | err e ↦ (l, some e)
  | ok sent ↦
      let (left, raised) = forget (record l { signals = l.signals ++ sent }) k in
      elim raised [ none ↦ with_plan left (report left.plan) | some e ↦ (left, some e) ]
]

-- `on_waiting`, `on_forked` and so on, by the state that they are named for. `rebind` only sets fields
-- of the process.
unfoldable pub on_process : Around → Live → Name → Option ℤ → ℤ → ProcessState → Handled
on_process a l k seq now waiting = on_waiting a l k seq
on_process a l k seq now forked =
    if member k l.task_processes
    then with_plan l (TaskPlanner.set_running l.plan k)
    else (l, some missing_key)
on_process a l k seq now running = with_plan l (TaskPlanner.set_running l.plan k)
on_process a l k seq now success = ended a l k (λ plan. TaskPlanner.add_success plan k now)
on_process a l k seq now failed = ended a l k (λ plan. TaskPlanner.add_failure plan k now)
on_process a l k seq now lost = ended a l k (λ plan. TaskPlanner.lost plan k now)
on_process a l k seq now killed = ended a l k (λ plan. TaskPlanner.lost plan k now)

-- A transition of a process, with what its handler reads then.
pub record Event : Type 0 where
  pub around : Around
  pub seq : Option ℤ
  pub now : ℤ
  pub to : ProcessState

-- The transitions of one process in a row; the first that raises is the last.
unfoldable pub on_all : Live → Name → List Event → Handled
on_all l k [] = (l, none)
on_all l k (event ∷ events) =
    let (next, raised) = on_process event.around l k event.seq event.now event.to in
    let rest = on_all next k events in elim raised [ none ↦ rest | some e ↦ (next, some e) ]
