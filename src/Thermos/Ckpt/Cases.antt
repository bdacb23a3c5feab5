-- ===== src/Thermos/Ckpt/Cases.antt =====
-- A proof rule for `dispatch_process`: one case for each way through it.
use aurora_client.Base.{
  ◌≡◌, refl, sym, subst, Bool, true, false, Option, none, some, [], arith, if◌then◌else◌, inl, inr,
  ◌⊎◌, Bool-cases, Option-cases,
}
use aurora_client.Base.Dicts.{get, put}
use aurora_client.Thermos.Ckpt.{
  waiting, ProcessStatus, RunnerState, Runs, Dispatcher, Dispatched, Order, in_order, out_of_order,
  unordered, invalid_sequence_number, type_error, assertion_error, error_recovering_state,
  seq_order, new_run, run_machine, dispatch_process, is_state, may_restart, key_eq,
}

Order-cases : (o : Order) → (o ≡ unordered) ⊎ ((o ≡ out_of_order) ⊎ (o ≡ in_order))
Order-cases unordered = inl refl
Order-cases out_of_order = inr (inl refl)
Order-cases in_order = inr (inr refl)

module _ {ℓ} (P : Dispatched → Type ℓ) (d : Dispatcher) (s : RunnerState) (u : ProcessStatus)
    (recovery truncate : Bool) where
  abbrev found : Option Runs
  found = get s.processes u.process

  abbrev starts : Bool
  starts = is_state u.state (some waiting)

  abbrev restarted : RunnerState
  restarted = record s { processes = put s.processes u.process (new_run found truncate) }

  pub dispatch_process_ind :
      (seq_order found u.seq ≡ unordered → P (s, [], some type_error))
      → (seq_order found u.seq ≡ out_of_order
          → P (s, [], (if recovery then none else some invalid_sequence_number)))
      → (seq_order found u.seq ≡ in_order
          → starts ≡ true
          → may_restart found ≡ false
          → P (s, [], some assertion_error))
      → (seq_order found u.seq ≡ in_order
          → starts ≡ false
          → found ≡ none
          → P (s, [], some error_recovering_state))
      → (seq_order found u.seq ≡ in_order
          → starts ≡ true
          → may_restart found ≡ true
          → P (run_machine d restarted u.process (some (new_run found truncate)) u))
      → ((runs : Runs)
          → found ≡ some runs
          → seq_order found u.seq ≡ in_order
          → starts ≡ false
          → P (run_machine d s u.process (some runs) u))
      → P (dispatch_process d s u recovery truncate)
  unfolding dispatch_process run_machine
  dispatch_process_ind unord skipped unended unknown restart go_on =
      elim (Order-cases (seq_order found u.seq)) [
        | inl o ↦ subst P (sym (ground arith)) (unord o)
        | inr (inl o) ↦ subst P (sym (ground arith)) (skipped o)
        | inr (inr o) ↦ elim (Bool-cases starts) [
          | inl w ↦ elim (Bool-cases (may_restart found)) [
            | inl m ↦ subst P (sym (ground arith)) (restart o w m)
            | inr m ↦ subst P (sym (ground arith)) (unended o w m)
          ]
          | inr w ↦ elim (Option-cases found) [
            | inl f ↦ subst P (sym (ground arith)) (unknown o w f)
            | inr (runs, f) ↦ subst P (sym (ground arith)) (go_on runs f o w)
          ]
        ]
      ]
