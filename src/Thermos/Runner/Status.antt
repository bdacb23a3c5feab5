-- ===== src/Thermos/Runner/Status.antt =====
-- `_current_process_run`, `_set_process_status` and `is_process_lost` of `TaskRunner` in
-- src/main/python/apache/thermos/core/runner.py. What the scan of the host and the multiplexer say
-- of a process are arguments.
pub mod Accepted
use mathlib.Core.Option
use aurora_client.Base.{
  ℕ, Bool, true, false, not, ◌&&◌, ◌||◌, Option, none, some, List, [], if◌then◌else◌, string_eq,
  Result, ok, err, ◌>>=◌,
}
use aurora_client.Base.Int.{ℤ, pos, ◌+ℤ◌, ◌-ℤ◌, ltb_ℤ}
use aurora_client.Base.Dicts.{get}
use aurora_client.Thermos.Planner.{Name}
use aurora_client.Thermos.Ckpt.{
  ProcessState, waiting, forked, running, ProcessStatus, RunnerCkpt, RunnerState, Dispatcher,
  Dispatched, Error, assertion_error, type_error, is_state, key_eq, dispatch,
}

unfoldable pub current_process_run : RunnerState → Name → Option ProcessStatus
current_process_run s process_name =
    Option.map (λ runs. runs.current) (get s.processes (some process_name))

abbrev pub is_waiting : ProcessState → Bool
is_waiting state = is_state (some state) (some waiting)

unfoldable pub next_sequence_number : Option ProcessStatus → ProcessState → Result Error ℤ
next_sequence_number none state = if is_waiting state then ok (pos 0) else err assertion_error
next_sequence_number (some run) state = elim run.seq [
  | none ↦ err type_error
  | some seq ↦ ok (seq +ℤ pos 1)
]

abbrev pub status_ckpt : ProcessStatus → RunnerCkpt
status_ckpt u = record { runner_header = none; process_status = some u; task_status = none }

-- `kw` holds the fields that the caller gives beside the name, the state and the number.
unfoldable pub set_process_status :
    Dispatcher → RunnerState → Name → ProcessState → ProcessStatus → Option ℤ → Bool → Dispatched
set_process_status d s process_name state kw forced recovery =
    let number : Result Error ℤ = elim forced [
      | some seq ↦ ok seq
      | none ↦ next_sequence_number (current_process_run s process_name) state
    ] in
    elim number [
      | err e ↦ (s, [], some e)
      | ok seq ↦
          dispatch d s
            (status_ckpt
              (record kw { process = some process_name; state = some state; seq = some seq }))
            recovery false
    ]

pub data LostError : Type 0 where
  internal_error fork_time_missing : LostError

abbrev pub lost_timeout : ℤ
lost_timeout = pos 60

-- What `scan_process` finds as the pid of the coordinator, and whether its checkpoint has data.
unfoldable pub is_process_lost : RunnerState → Name → ℤ → Option ℕ → Bool → Result LostError Bool
is_process_lost s process_name now coordinator_pid has_data =
    elim (current_process_run s process_name) [
      | none ↦ err internal_error
      | some run ↦
          if is_state run.state (some forked)
          then elim run.fork_time [
            | none ↦ err fork_time_missing
            | some fork_time ↦ ok (ltb_ℤ lost_timeout (now -ℤ fork_time))
          ]
          else ok (
              is_state run.state (some running)
              && elim coordinator_pid [ none ↦ not has_data | some _ ↦ false ])
    ]
