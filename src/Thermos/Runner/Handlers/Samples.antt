-- ===== src/Thermos/Runner/Handlers/Samples.antt =====
-- A process that is launched, runs and ends well, on which the theorem of the handlers is run.
use aurora_client.Base.{◌≡◌, refl, true, false, none, some, List, [], ◌∷◌, string_eq}
use aurora_client.Base.Int.{ℤ, pos, ◌+ℤ◌}
use aurora_client.Base.Sets.{member, minus}
use aurora_client.Base.Dicts.{get, put, map_values}
use aurora_client.Thermos.Planner.{runnable, filter_runnable, filter_dependencies}
use aurora_client.Thermos.Planner.Samples.{fresh_chain}
use aurora_client.Thermos.TaskPlanner.Samples.{fresh_task, fresh-IsSound, a_attributes, a_known}
use aurora_client.Thermos.Ckpt.{
  ProcessState, waiting, forked, running, success, ProcessStatus, RunnerCkpt, RunnerHeader,
  RunnerState, Runs, key_eq, beq_key, fresh, empty, advance, update_process_state, seq_order,
  new_run, run_machine, dispatch_header, dispatch_process, dispatch, run_process_dispatch,
  run_header_dispatch, rebuild,
}
use aurora_client.Thermos.Helper.{process_record}
use aurora_client.Thermos.Helper.Consistent.{empty-IsReadable, rebuild-IsReadable}
use aurora_client.Thermos.Runner.Handlers.{Live, Around, make_process, on_all}
use aurora_client.Thermos.Runner.Handlers.Lifecycle.{IsKnown, IsFresh, Life, events, life_accepted}

abbrev update : ℤ → ProcessState → ProcessStatus
update seq state = record (fresh (some seq)) { process = some "a"; state = some state }

abbrev header : RunnerHeader
header = record {
  task_id = "task";
  sandbox = "/sandbox";
  user = "user";
  uid = some (pos 5);
  ports = [];
}

abbrev records : List RunnerCkpt
records =
    record { runner_header = some header; process_status = none; task_status = none }
    ∷ process_record (update (pos 0) waiting)
    ∷ process_record (record (update (pos 1) forked) {
      coordinator_pid = some (pos 40);
      fork_time = some (pos 100);
    })
    ∷ process_record
        (record (update (pos 2) running) { pid = some (pos 41); start_time = some (pos 101) })
    ∷ process_record
        (record (update (pos 3) success) { stop_time = some (pos 109); return_code = some (pos 0) })
    ∷ []

abbrev ended_runs : Runs
ended_runs = record {
  earlier = [];
  current = record (update (pos 3) success) {
    coordinator_pid = some (pos 40);
    fork_time = some (pos 100);
    pid = some (pos 41);
    start_time = some (pos 101);
    stop_time = some (pos 109);
    return_code = some (pos 0);
  };
}

abbrev ended_state : RunnerState
ended_state = record {
  header = some header;
  statuses = [];
  processes = (some "a", ended_runs) ∷ [];
}

readable : rebuild empty records false false ≡ (ended_state, none)
unfolding rebuild dispatch dispatch_header run_header_dispatch dispatch_process run_machine
    update_process_state advance seq_order new_run run_process_dispatch get put beq_key ◌+ℤ◌
readable = refl

-- The host knows a process for every pid.
abbrev around : Around
around = record {
  recovery = false;
  platform = λ pid. some (record {
    create_time = pos 100;
    uid = some (pos 5);
    username = none;
    children = pos 42 ∷ [];
  });
  state = ended_state;
  process_map = "a" ∷ [];
  is_made = λ name. true;
}

abbrev live : Live
live = record { plan = fresh_task; task_processes = []; watcher = []; signals = [] }

abbrev life : Life
life = record {
  at_waiting = around;
  at_forked = around;
  at_running = around;
  at_end = around;
  seq = pos 0;
  now = pos 7;
  last = success;
}

live-IsFresh : IsFresh around live "a"
unfolding get make_process member beq_key
live-IsFresh = record { unwatched = refl; makes = refl }

around-IsKnown : IsKnown around "a"
unfolding get beq_key
around-IsKnown = record {
  readable = rebuild-IsReadable empty ended_state records false false empty-IsReadable readable;
  header = header;
  begun_with = refl;
  runs = ended_runs;
  listed = refl;
}

a_offered : member "a" (runnable fresh_chain) ≡ true
unfolding runnable filter_runnable filter_dependencies map_values minus get member
a_offered = refl

life_accepted_example : (on_all live "a" (events life)).1 ≡ none
life_accepted_example =
    life_accepted live "a" a_attributes fresh-IsSound.valid a_known a_offered life live-IsFresh
      around-IsKnown refl
