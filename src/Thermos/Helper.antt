-- ===== src/Thermos/Helper.antt =====
-- src/main/python/apache/thermos/core/helper.py: `TaskRunnerHelper`, which kills a task from its
-- checkpoint alone. What psutil says of a pid and what the file system holds are arguments; times are
-- whole seconds.
pub mod Consistent
pub mod Killing
pub mod Settling
pub mod Replay
mod Samples
use aurora_client.Base.{
  ℕ, suc, ◌+◌, String, Bool, true, false, not, ◌&&◌, ◌||◌, Option, none, some, List, [], ◌∷◌, ◌++◌,
  map, if◌then◌else◌, is_nil, is_some, get_last?, ◌==◌, string_eq, nat_eq, Result, ok, err, ◌>>=◌,
}
use aurora_client.Base.Int.{ℤ, pos, negsuc, ◌+ℤ◌, ◌-ℤ◌, ltb_ℤ, beq_ℤ, int_eq}
use aurora_client.Base.Sets.{minus, to_set}
use aurora_client.Base.Dicts.{Dict, get}
use aurora_client.Thermos.Planner.{Name}
use aurora_client.Thermos.Ckpt.{
  ProcessState, waiting, forked, running, success, killed, failed, lost, TaskState, active,
  task_killed, task_lost, succeeded, task_failed, ProcessStatus, TaskStatus, RunnerHeader,
  RunnerCkpt, RunnerState, Runs, Error, type_error, terminal, is_state, fresh, key_eq,
}

-- What psutil says of a live process; `none` where it raises, or does not know the user.
pub record PsProcess : Type 0 where
  pub create_time : ℤ
  pub uid : Option ℤ
  pub username : Option String
  pub children : List ℤ

-- `psutil.Process(pid)`
abbrev pub Platform : Type 0
Platform = ℤ → Option PsProcess

abbrev pub max_start_time_drift : ℤ
max_start_time_drift = pos 10

-- `this_is_really_our_pid`
unfoldable pub this_is_really_our_pid : PsProcess → Option ℤ → String → ℤ → Bool
this_is_really_our_pid process uid user start_time =
    let close =
      ltb_ℤ (start_time -ℤ process.create_time) max_start_time_drift
      && ltb_ℤ (process.create_time -ℤ start_time) max_start_time_drift in
    close && elim uid [
      | some expected ↦ elim process.uid [
        | none ↦ false
        | some process_uid ↦ beq_ℤ process_uid expected || beq_ℤ expected (pos 0)
      ]
      | none ↦ elim process.username [ none ↦ false | some process_user ↦ process_user == user ]
    ]

-- `if pid:`
unfoldable pub is_pid : Option ℤ → Bool
is_pid none = false
is_pid (some pid) = not (beq_ℤ pid (pos 0))

-- One half of `scan_process`: the process of a pid of the checkpoint, if it is ours. A missing time
-- raises TypeError.
unfoldable pub find_ours :
    Platform → RunnerHeader → Option ℤ → Option ℤ → Result Error (Option PsProcess)
find_ours platform header none time = ok none
find_ours platform header (some pid) time =
    if beq_ℤ pid (pos 0) then ok none else elim (platform pid) [
      | none ↦ ok none
      | some process ↦ elim time [
        | none ↦ err type_error
        | some start_time ↦ ok (
            if this_is_really_our_pid process header.uid header.user start_time
            then some process
            else none)
      ]
    ]

pub record Scan : Type 0 where
  pub coordinator_pid : Option ℤ
  pub pid : Option ℤ
  pub tree : List ℤ

abbrev pub children_of : Option PsProcess → List ℤ
children_of none = []
children_of (some process) = to_set process.children

-- `scan_process`, for the last run of a process.
unfoldable pub scan_process : Platform → RunnerHeader → ProcessStatus → Result Error Scan
scan_process platform header run =
    find_ours platform header run.coordinator_pid run.fork_time >>= λ coordinator.
    find_ours platform header run.pid run.start_time >>= λ process. ok (record {
      coordinator_pid = if is_some coordinator then run.coordinator_pid else none;
      pid = if is_some process then run.pid else none;
      tree = children_of process;
    })

pub data Signal : Type 0 where
  kill_group kill_pid : ℤ → Signal

abbrev signal_if : Bool → (ℤ → Signal) → Option ℤ → List Signal
signal_if false sends pid = []
signal_if true sends none = []
signal_if true sends (some pid) = sends pid ∷ []

-- `kill_process`: whether there was anything to kill, and the signals.
unfoldable pub kill_process :
    Platform → RunnerHeader → ProcessStatus → Result Error (Bool × List Signal)
kill_process platform header run = scan_process platform header run >>= λ scan. ok (
  is_pid scan.coordinator_pid || is_pid scan.pid || not (is_nil scan.tree),
  signal_if (is_pid run.coordinator_pid) kill_group run.coordinator_pid
      ++ signal_if (is_pid scan.coordinator_pid) kill_pid scan.coordinator_pid
      ++ signal_if (is_pid scan.pid) kill_pid scan.pid
      ++ map kill_pid scan.tree,
)

abbrev pub next_seq : Option ℤ → Result Error ℤ
next_seq none = err type_error
next_seq (some seq) = ok (seq +ℤ pos 1)

-- `ProcessStatus(process=..., state=KILLED, seq=..., return_code=-9, stop_time=...)`
abbrev pub killed_status : ℤ → Option Name → ℤ → ProcessStatus
killed_status now process seq = record (fresh (some seq)) {
  process = process;
  state = some killed;
  return_code = some (negsuc 8);
  stop_time = some now;
}

-- `ProcessStatus(process=..., state=LOST, seq=...)`
abbrev pub lost_status : Option Name → ℤ → ProcessStatus
lost_status process seq = record (fresh (some seq)) { process = process; state = some lost }

-- What is written once it is known whether there was anything to kill.
unfoldable pub status_after :
    Bool → ℤ → Option Name → ProcessStatus → Result Error (Option ProcessStatus)
status_after true now process run =
    next_seq run.seq >>= λ seq. ok (some (killed_status now process seq))
status_after false now process run =
    if is_state run.state (some waiting)
    then ok none
    else next_seq run.seq >>= (λ seq. ok (some (lost_status process seq)))

-- The status that the loop of `kill` writes for a process, if any.
unfoldable pub kill_status :
    Platform → RunnerHeader → ℤ → Option Name → ProcessStatus → Result Error (Option ProcessStatus)
kill_status platform header now process run =
    if terminal run.state
    then ok none
    else kill_process platform header run >>= (λ found. status_after found.0 now process run)

abbrev pub process_record : ProcessStatus → RunnerCkpt
process_record status = record {
  runner_header = none;
  process_status = some status;
  task_status = none;
}

abbrev pub task_record : TaskStatus → RunnerCkpt
task_record status = record {
  runner_header = none;
  process_status = none;
  task_status = some status;
}

abbrev cons_status : Option ProcessStatus → List RunnerCkpt → List RunnerCkpt
cons_status none records = records
cons_status (some status) records = process_record status ∷ records

-- The loop of `kill` over the processes.
unfoldable pub kill_statuses :
    Platform → RunnerHeader → ℤ → Dict (Option Name) Runs → Result Error (List RunnerCkpt)
kill_statuses platform header now [] = ok []
kill_statuses platform header now ((process, runs) ∷ processes) =
    kill_status platform header now process runs.current >>= λ status.
    kill_statuses platform header now processes >>= λ records. ok (cons_status status records)

-- What `kill` appends to the checkpoint of a task that is not terminal.
unfoldable pub kill_records :
    Platform
    → RunnerHeader
    → ℤ
    → ℤ
    → ℤ
    → TaskState
    → Dict (Option Name) Runs
    → Result Error (List RunnerCkpt)
kill_records platform header now now_ms own_pid terminal_status processes =
    let status : TaskState → RunnerCkpt = λ state.
      task_record (record { state = some state; timestamp_ms = now_ms; runner_pid = own_pid }) in
    kill_statuses platform header now processes >>= λ records.
    ok (status active ∷ (records ++ status terminal_status ∷ []))

-- The files `active` and `finished` of a task.
pub record TaskFiles : Type 0 where
  pub is_active : Bool
  pub is_finished : Bool

pub data HelperError : Type 0 where
  error permission_error : HelperError
  -- What comes of the checkpoint.
  dispatcher : Error → HelperError

unfoldable pub initialize_task : TaskFiles → Result HelperError TaskFiles
initialize_task files =
    if files.is_finished then err error else ok (record files { is_active = true })

unfoldable pub finalize_task : TaskFiles → Result HelperError TaskFiles
finalize_task files =
    if not files.is_active
    then err error
    else if files.is_finished
    then err error
    else ok (record { is_active = false; is_finished = true })

-- What `os.kill` comes to.
pub data Killed : Type 0 where
  no_error not_permitted no_such_process unexpected : Killed

-- `kill_runner`: `none` where the error of `os.kill` is raised again.
unfoldable pub kill_runner : (ℤ → Killed) → ℤ → RunnerState → Result HelperError (Option Bool)
kill_runner os_kill own_pid state = elim (get_last? state.statuses) [
  | none ↦ err error
  | some status ↦
      if beq_ℤ status.runner_pid own_pid
      then err error
      else ok (elim (os_kill status.runner_pid) [
        | no_error ↦ some true
        | not_permitted ↦ some false
        | no_such_process ↦ some true
        | unexpected ↦ none
      ])
]

-- Who holds the lock of the checkpoint: whether it is got at once, and whether it is got after a wait.
pub record Lock : Type 0 where
  pub at_once : Bool
  pub after_wait : Bool

-- `open_checkpoint`, of which the records come later.
unfoldable pub open_checkpoint :
    (ℤ → Killed) → ℤ → Lock → Bool → RunnerState → Result HelperError Unit
open_checkpoint os_kill own_pid lock force state =
    if lock.at_once
    then ok tt
    else if force
    then kill_runner os_kill own_pid state >>= (λ was_killed. elim was_killed [
      | none ↦ err error
      | some true ↦ if lock.after_wait then ok tt else err permission_error
      | some false ↦ err permission_error
    ])
    else err permission_error

abbrev pub is_task_terminal : Option TaskState → Bool
is_task_terminal (some succeeded) = true
is_task_terminal (some task_failed) = true
is_task_terminal (some task_killed) = true
is_task_terminal (some task_lost) = true
is_task_terminal _ = false

abbrev pub may_end_in : TaskState → Bool
may_end_in task_killed = true
may_end_in task_lost = true
may_end_in _ = false

-- What a run of `kill` sees of the host.
pub record Host : Type 0 where
  pub platform : Platform
  pub os_kill : ℤ → Killed
  pub own_pid : ℤ
  pub lock : Lock
  pub files : TaskFiles
  pub now : ℤ
  pub now_ms : ℤ

-- The records that are written, and the files as they are left.
abbrev pub Written : Type 0
Written = List RunnerCkpt × TaskFiles

unfoldable pub kill_state :
    Host → Bool → TaskState → RunnerState → RunnerHeader → TaskStatus → Result HelperError Written
kill_state host force terminal_status state header last =
    open_checkpoint host.os_kill host.own_pid host.lock force state >>= λ _.
    if is_task_terminal last.state
    then finalize_task host.files >>= (λ files. ok ([], files))
    else elim (kill_records host.platform header host.now host.now_ms host.own_pid terminal_status
        state.processes) [
          | err raised ↦ err (dispatcher raised)
          | ok records ↦ finalize_task host.files >>= λ files. ok (records, files)
        ]

unfoldable pub kill_uninitialized : Host → Bool → Result HelperError Written
kill_uninitialized host force =
    if force then finalize_task host.files >>= (λ files. ok ([], files)) else ok ([], host.files)

-- `kill`, with the state that `from_file` gives. A task without a header or a status is only
-- finalized, and only by force.
unfoldable pub kill : Host → Bool → TaskState → Option RunnerState → Result HelperError Written
kill host force terminal_status found =
    if not (may_end_in terminal_status) then err error else elim found [
      | none ↦ kill_uninitialized host force
      | some state ↦ elim state.header [
        | none ↦ kill_uninitialized host force
        | some header ↦ elim (get_last? state.statuses) [
          | none ↦ kill_uninitialized host force
          | some last ↦ kill_state host force terminal_status state header last
        ]
      ]
    ]
