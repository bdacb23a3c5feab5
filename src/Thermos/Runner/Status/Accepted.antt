-- ===== src/Thermos/Runner/Status/Accepted.antt =====
-- What the runner writes itself is in order.
use aurora_client.Base.{
  ℕ, ◌≡◌, refl, Bool, true, false, ◌||◌, Option, none, some, arith, string_eq, ok, inl, inr,
  Bool-cases,
}
use aurora_client.Base.Int.{ℤ, pos, ◌+ℤ◌, beq_ℤ_iff}
use aurora_client.Base.Dicts.{get}
use aurora_client.Thermos.Planner.{Name}
use aurora_client.Thermos.Ckpt.{
  forked, running, lost, Runs, RunnerState, Dispatcher, key_eq, fresh, seq_order, in_order,
  run_machine, dispatch_process, dispatch, update_process_state, advance, is_state,
}
use aurora_client.Thermos.Runner.Status.{
  current_process_run, next_sequence_number, set_process_status, is_process_lost,
}

next_in_order :
    (runs : Runs) (q : ℤ)
    → runs.current.seq ≡ some q
    → seq_order (some runs) (some (q +ℤ pos 1)) ≡ in_order
unfolding seq_order
next_in_order runs q e = ground (arith, (beq_ℤ_iff (q +ℤ pos 1) (q +ℤ pos 1)).1 refl)

lost_state :
    (s : RunnerState) (k : Name) (runs : Runs) (now : ℤ) (pid : Option ℕ) (has_data : Bool)
    → get s.processes (some k) ≡ some runs
    → is_process_lost s k now pid has_data ≡ ok true
    → (is_state runs.current.state (some forked) || is_state runs.current.state (some running))
      ≡ true
unfolding is_process_lost current_process_run
lost_state s k runs now pid has_data known e =
    elim (Bool-cases (is_state runs.current.state (some forked))) [
      | inl f ↦ ground arith
      | inr f ↦ elim (Bool-cases (is_state runs.current.state (some running))) [
        | inl r ↦ ground arith
        | inr r ↦ ground arith
      ]
    ]

-- When the runner finds a process lost, whose last run has a sequence number, and sets its status
-- to LOST, the dispatch raises nothing: the number is the next one, and the state may become LOST.
pub lost_accepted :
    (d : Dispatcher) (s : RunnerState) (k : Name) (runs : Runs) (q : ℤ) (now : ℤ) (pid : Option ℕ)
    (has_data : Bool)
    → get s.processes (some k) ≡ some runs
    → runs.current.seq ≡ some q
    → is_process_lost s k now pid has_data ≡ ok true
    → (set_process_status d s k lost (fresh none) none false).2 ≡ none
unfolding set_process_status dispatch dispatch_process run_machine update_process_state advance
    current_process_run next_sequence_number
lost_accepted d s k runs q now pid has_data known numbered e =
    ground (arith, next_in_order runs q numbered, lost_state s k runs now pid has_data known e)
