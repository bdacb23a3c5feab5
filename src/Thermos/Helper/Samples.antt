-- ===== src/Thermos/Helper/Samples.antt =====
-- A task with a running process, which is killed, with tests.
use aurora_client.Base.{
  ◌≡◌, refl, true, false, none, some, List, [], ◌∷◌, ◌++◌, all, get_last?, ok, string_eq, nat_eq,
}
use aurora_client.Base.Int.{ℤ, pos, ◌+ℤ◌}
use aurora_client.Base.Dicts.{get, put}
use aurora_client.Thermos.Ckpt.{
  ProcessState, waiting, forked, running, ProcessStatus, RunnerCkpt, RunnerHeader, RunnerState,
  TaskStatus, active, task_killed, key_eq, beq_key, fresh, empty, advance, update_process_state,
  seq_order, new_run, run_machine, dispatch_header, dispatch_task, dispatch_process, dispatch,
  run_process_dispatch, run_task_dispatch, run_header_dispatch, rebuild,
}
use aurora_client.Thermos.Helper.{Host, no_error, process_record, task_record, kill}
use aurora_client.Thermos.Helper.Consistent.{IsReadable, empty-IsReadable, rebuild-IsReadable}
use aurora_client.Thermos.Helper.Killing.{is_settled}
use aurora_client.Thermos.Helper.Replay.{kill-rebuild}

abbrev update : ℤ → ProcessState → ProcessStatus
update seq state = record (fresh (some seq)) { process = some "main"; state = some state }

abbrev header : RunnerHeader
header = record {
  task_id = "task";
  sandbox = "/sandbox";
  user = "user";
  uid = some (pos 5);
  ports = [];
}

abbrev started : TaskStatus
started = record { state = some active; timestamp_ms = pos 1000; runner_pid = pos 30 }

abbrev records : List RunnerCkpt
records =
    record { runner_header = some header; process_status = none; task_status = none }
    ∷ task_record started
    ∷ process_record (update (pos 0) waiting)
    ∷ process_record (record (update (pos 1) forked) {
      coordinator_pid = some (pos 40);
      fork_time = some (pos 100);
    })
    ∷ process_record
        (record (update (pos 2) running) { pid = some (pos 41); start_time = some (pos 101) })
    ∷ []

abbrev running_state : RunnerState
running_state = record {
  header = some header;
  statuses = started ∷ [];
  processes =
      (
        some "main",
        record {
          earlier = [];
          current = record (update (pos 2) running) {
            coordinator_pid = some (pos 40);
            fork_time = some (pos 100);
            pid = some (pos 41);
            start_time = some (pos 101);
          };
        },
      )
      ∷ [];
}

readable : rebuild empty records false false ≡ (running_state, none)
unfolding rebuild dispatch dispatch_header dispatch_task run_header_dispatch run_task_dispatch
    dispatch_process run_machine update_process_state advance seq_order new_run run_process_dispatch
    get put beq_key ◌+ℤ◌
readable = refl

abbrev host : Host
host = record {
  platform = λ pid. some (record {
    create_time = pos 100;
    uid = some (pos 5);
    username = none;
    children = pos 42 ∷ [];
  });
  os_kill = λ pid. no_error;
  own_pid = pos 50;
  lock = record { at_once = true; after_wait = true };
  files = record { is_active = true; is_finished = false };
  now = pos 200;
  now_ms = pos 200000;
}

kill-rebuild_example :
    (written : List RunnerCkpt) × (kill host false task_killed (some running_state)
      ≡ ok (written, record { is_active = false; is_finished = true }))
    × (s' : RunnerState) × (rebuild empty (records ++ written) false false ≡ (s', none))
    × (get_last? s'.statuses
        ≡ some
            (record { state = some task_killed; timestamp_ms = pos 200000; runner_pid = pos 50 }))
    × (all (λ entry. is_settled entry.1.current) s'.processes ≡ true)
kill-rebuild_example =
    kill-rebuild host false task_killed records running_state header started readable refl refl refl
      refl refl refl refl

rebuild-IsReadable_example : IsReadable running_state
rebuild-IsReadable_example =
    rebuild-IsReadable empty running_state records false false empty-IsReadable readable
