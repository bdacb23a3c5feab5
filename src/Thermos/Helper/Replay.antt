-- ===== src/Thermos/Helper/Replay.antt =====
-- src/main/python/apache/thermos/core/helper.py with src/main/python/apache/thermos/common/ckpt.py:
-- the checkpoint of a task that was killed, read again.
use aurora_client.Base.{
  ◌≡◌, refl, ◌∙◌, Bool, true, false, Option, none, some, List, [], ◌∷◌, ◌++◌, arith, all, get_last?,
  get_last?-append, ok, inl, inr, ==_iff,
}
use aurora_client.Base.Int.{ℤ}
use aurora_client.Thermos.Planner.{Name}
use aurora_client.Base.Dicts.{Dict, get, IsDict}
use aurora_client.Thermos.Ckpt.{
  TaskState, TaskStatus, active, RunnerHeader, RunnerCkpt, RunnerState, Runs, key_eq,
  run_task_dispatch, dispatch, dispatch_task, rebuild, empty,
}
use aurora_client.Thermos.Helper.{
  Platform, kill_records, task_record, Host, kill, kill_state, open_checkpoint, finalize_task,
  is_task_terminal, may_end_in,
}
use aurora_client.Thermos.Helper.Consistent.{rebuild-IsReadable, rebuild-append, empty-IsReadable}
use aurora_client.Thermos.Helper.Killing.{is_settled}
use aurora_client.Thermos.Helper.Settling.{Covers, Settled, loop}

dispatch_status_of_task :
    (t : RunnerState) (state : TaskState) (at pid : ℤ) (more : List RunnerCkpt)
    → (let status : TaskStatus = record {
      state = some state;
      timestamp_ms = at;
      runner_pid = pid;
    } in
        rebuild t (task_record status ∷ more) false false
        ≡ rebuild (record t { statuses = t.statuses ++ status ∷ [] }) more false false)
unfolding rebuild dispatch dispatch_task run_task_dispatch
dispatch_status_of_task t state at pid more = refl

rebuild_nothing : (s : RunnerState) → rebuild s [] false false ≡ (s, none)
unfolding rebuild
rebuild_nothing s = refl

-- Where the entries are all processes of the state, all are settled.
settled_of :
    (t t' : RunnerState) (key : Option Name) (r : Runs)
    → Settled t t' t.processes
    → get t'.processes key ≡ some r
    → is_settled r.current ≡ true
unfolding Settled
settled_of t t' key r (_, rest) found = elim (rest key r found) [
  | inr settled ↦ settled
  | inl (absent, there) ↦ absurd (ground (arith, absent, there))
]

all_values :
    (p : Runs → Bool) (d : Dict (Option Name) Runs)
    → IsDict d
    → ((key : Option Name) (r : Runs) → get d key ≡ some r → p r ≡ true)
    → all (λ entry. p entry.1) d ≡ true
unfolding IsDict get
all_values p [] d h = refl
all_values p ((key, r) ∷ d) (new, rest) h = ground (
  arith,
  h key r,
  ==_iff key key,
  all_values p d rest (λ j r' found. h j r' (ground (arith, ==_iff key j))),
)

-- The records that `kill` writes, read after those of the checkpoint.
kill_records-rebuild :
    (platform : Platform) (header : RunnerHeader) (now now_ms own_pid : ℤ)
    (terminal_status : TaskState) (records : List RunnerCkpt) (s : RunnerState)
    → rebuild empty records false false ≡ (s, none)
    → (written : List RunnerCkpt) × (kill_records platform header now now_ms own_pid terminal_status
          s.processes
        ≡ ok written)
      × (s' : RunnerState) × (rebuild empty (records ++ written) false false ≡ (s', none))
      × (get_last? s'.statuses
          ≡ some (record {
            state = some terminal_status;
            timestamp_ms = now_ms;
            runner_pid = own_pid;
          }))
      × (all (λ entry. is_settled entry.1.current) s'.processes ≡ true)
unfolding kill_records
kill_records-rebuild platform header now now_ms own_pid terminal_status records s read =
    let status : TaskState → TaskStatus =
      λ state. record { state = some state; timestamp_ms = now_ms; runner_pid = own_pid } in
    let readable = rebuild-IsReadable empty s records false false empty-IsReadable read in
    let s1 : RunnerState = record s { statuses = s.statuses ++ status active ∷ [] } in
    let (middle, written, t, through, settled) =
      loop platform header now s1 s.processes readable.one_entry
        (unfold Covers in λ key r found. (found, readable.runs key r found)) in
    let last = status terminal_status in
    let s' : RunnerState = record t { statuses = t.statuses ++ last ∷ [] } in
    let of_t =
      rebuild-IsReadable s1 t middle false false
        (record { one_entry = readable.one_entry; runs = readable.runs }) through in
    (
      task_record (status active) ∷ (middle ++ task_record last ∷ []),
      ground (arith, written),
      s',
      rebuild-append empty s records
            (task_record (status active) ∷ (middle ++ task_record last ∷ [])) false false read
          ∙ dispatch_status_of_task s active now_ms own_pid (middle ++ task_record last ∷ [])
          ∙ rebuild-append s1 t middle (task_record last ∷ []) false false through
          ∙ dispatch_status_of_task t terminal_status now_ms own_pid []
          ∙ rebuild_nothing s',
      get_last?-append t.statuses last,
      all_values (λ r. is_settled r.current) t.processes of_t.one_entry
          (λ key r found. settled_of s1 t key r settled found),
    )

-- Let the checkpoint of a task that has not ended be readable, with a header, its lock be free and its
-- file be that of an active task. Whatever psutil says of its pids, `kill` to KILLED or LOST comes to
-- its end: the task is finished on disk, and its checkpoint with the records that were written is read
-- without an error, as a task in the state that was asked for in which every process has ended or
-- still waits.
pub kill-rebuild :
    (host : Host) (force : Bool) (terminal_status : TaskState) (records : List RunnerCkpt)
    (s : RunnerState) (header : RunnerHeader) (last : TaskStatus)
    → rebuild empty records false false ≡ (s, none)
    → s.header ≡ some header
    → get_last? s.statuses ≡ some last
    → is_task_terminal last.state ≡ false
    → may_end_in terminal_status ≡ true
    → host.lock.at_once ≡ true
    → host.files.is_active ≡ true
    → host.files.is_finished ≡ false
    → (written : List RunnerCkpt) × (kill host force terminal_status (some s)
        ≡ ok (written, record { is_active = false; is_finished = true }))
      × (s' : RunnerState) × (rebuild empty (records ++ written) false false ≡ (s', none))
      × (get_last? s'.statuses
          ≡ some (record {
            state = some terminal_status;
            timestamp_ms = host.now_ms;
            runner_pid = host.own_pid;
          }))
      × (all (λ entry. is_settled entry.1.current) s'.processes ≡ true)
unfolding kill kill_state open_checkpoint finalize_task
kill-rebuild host force terminal_status records s header last read headed stated live may free
      is_active unfinished =
    let (written, e, s', again, ended, settled) =
      kill_records-rebuild host.platform header host.now host.now_ms host.own_pid terminal_status
        records s read in
    (
      written,
      ground (arith, headed, stated, live, may, free, is_active, unfinished, e),
      s',
      again,
      ended,
      settled,
    )
