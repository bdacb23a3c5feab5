-- ===== src/Thermos/Ckpt/Samples.antt =====
-- The records of one process on which the theorems of the checkpoint are run, with tests.
use aurora_client.Base.{
  ◌≡◌, ◌≢◌, refl, true, false, none, some, List, [], ◌∷◌, arith, string_eq, ok,
}
use aurora_client.Base.Int.{ℤ, pos, ◌+ℤ◌}
use aurora_client.Base.Dicts.{get, put}
use aurora_client.Thermos.Ckpt.{
  ProcessState, waiting, forked, running, failed, ProcessStatus, RunnerCkpt, RunnerState,
  Dispatcher, on_process_transition, beq_key, beq_key_iff, key_eq, fresh, empty, advance,
  update_process_state, seq_order, new_run, run_machine, dispatch_process, dispatch,
  run_process_dispatch, would_update, rebuild, from_file,
}
use aurora_client.Thermos.Ckpt.Sequence.{process_ckpt, replay_idempotent}
use aurora_client.Thermos.Ckpt.History.{Histories, dispatch-Histories}
use aurora_client.Thermos.Ckpt.Truncate.{
  truncated, forget_result, dispatch-truncated, from_file-truncated,
}

abbrev update : ℤ → ProcessState → ProcessStatus
update seq state = record (fresh (some seq)) { process = some "main"; state = some state }

abbrev to_waiting : ProcessStatus
to_waiting = update (pos 0) waiting

abbrev to_forked : ProcessStatus
to_forked = record (update (pos 1) forked) {
  coordinator_pid = some (pos 40);
  fork_time = some (pos 100);
}

abbrev to_running : ProcessStatus
to_running = record (update (pos 2) running) { pid = some (pos 41); start_time = some (pos 101) }

abbrev to_failed : ProcessStatus
to_failed = record (update (pos 3) failed) {
  stop_time = some (pos 102);
  return_code = some (pos 1);
}

abbrev pub listener : Dispatcher
listener = record { task_handlers = []; process_handlers = []; universal_handlers = 1 ∷ [] }

abbrev waiting_state : RunnerState
waiting_state = record empty {
  processes = (some "main", record { earlier = []; current = to_waiting }) ∷ [];
}

abbrev pub forked_run : ProcessStatus
forked_run = record to_forked { process = some "main" }

abbrev pub forked_state : RunnerState
forked_state = record empty {
  processes = (some "main", record { earlier = []; current = forked_run }) ∷ [];
}

first_dispatch :
    dispatch listener empty (process_ckpt to_waiting) false false
    ≡ (waiting_state, on_process_transition 1 waiting to_waiting ∷ [], none)
unfolding dispatch dispatch_process run_machine update_process_state advance seq_order new_run
    run_process_dispatch get put beq_key ◌+ℤ◌
first_dispatch = refl

second_dispatch :
    dispatch listener waiting_state (process_ckpt to_forked) false false
    ≡ (forked_state, on_process_transition 1 forked to_forked ∷ [], none)
unfolding dispatch dispatch_process run_machine update_process_state advance seq_order new_run
    run_process_dispatch get put beq_key ◌+ℤ◌
second_dispatch = refl

-- The stop time and the return code of a failure are not in the run that failed.
abbrev records : List RunnerCkpt
records =
    process_ckpt to_waiting
    ∷ process_ckpt to_forked
    ∷ process_ckpt to_running
    ∷ process_ckpt to_failed
    ∷ []

abbrev failed_run : ProcessStatus
failed_run = record to_failed {
  coordinator_pid = some (pos 40);
  fork_time = some (pos 100);
  start_time = some (pos 101);
  pid = some (pos 41);
  stop_time = none;
  return_code = none;
}

replayed :
    from_file records false false
    ≡ ok (
        some (record empty {
          processes = (some "main", record { earlier = []; current = failed_run }) ∷ [];
        }))
unfolding from_file rebuild dispatch dispatch_process run_machine update_process_state advance
    seq_order new_run run_process_dispatch get put beq_key ◌+ℤ◌
replayed = refl

forks : (update_process_state to_waiting to_forked).1 ≡ none
unfolding update_process_state advance
forks = refl

main_known :
    get waiting_state.processes (some "main") ≡ some (record { earlier = []; current = to_waiting })
unfolding get beq_key
main_known = refl

skips_one : some (pos 2) ≢ some (pos 0 +ℤ pos 1)
unfolding ◌+ℤ◌
skips_one e = ground (arith, e)

is_old : would_update waiting_state (process_ckpt to_waiting) ≡ ok false
unfolding would_update get beq_key
is_old = refl

accepted : (dispatch listener waiting_state (process_ckpt to_forked) false false).2 ≡ none
accepted = rw second_dispatch

replay_idempotent_example :
    let s' = (dispatch listener waiting_state (process_ckpt to_forked) false false).0 in
    dispatch listener s' (process_ckpt to_forked) true false ≡ (s', [], none)
replay_idempotent_example =
    replay_idempotent listener listener waiting_state to_forked false accepted

others : to_forked.process ≢ some "other"
unfolding beq_key
others e = ground (arith, (beq_key_iff to_forked.process (some "other")).1 e)

empty-Histories : Histories empty
unfolding get
empty-Histories = record { at = λ k runs e. ground arith }

dispatch-Histories_example :
    Histories (dispatch listener empty (process_ckpt to_waiting) false false).0
dispatch-Histories_example =
    dispatch-Histories listener empty (process_ckpt to_waiting) false false empty-Histories

dispatch-truncated_example :
    dispatch listener (truncated waiting_state) (process_ckpt to_forked) false true
    ≡ (truncated forked_state, on_process_transition 1 forked to_forked ∷ [], none)
unfolding dispatch dispatch_process run_machine update_process_state advance seq_order new_run
    run_process_dispatch get put beq_key ◌+ℤ◌
dispatch-truncated_example =
    dispatch-truncated listener waiting_state (process_ckpt to_forked) false

from_file-truncated_example :
    from_file records false true ≡ forget_result (from_file records false false)
from_file-truncated_example = from_file-truncated records false
