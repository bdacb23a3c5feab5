-- ===== src/Thermos/Ckpt/Sequence.antt =====
-- Sequence numbers: what a dispatch does with an update that is not the next one.
use aurora_client.Base.{
  ◌≡◌, ◌≢◌, refl, Bool, true, false, Option, none, some, [], arith, if◌then◌else◌, is_some, ok,
  ==_iff, Option-cases, Bool-cases, inl, inr, ◌∙◌, ap, sym, string_eq,
}
use aurora_client.Base.Int.{ℤ, pos_part, neg_part, pos, ◌+ℤ◌, beq_ℤ, beq_ℤ_iff, +ℤ_parts}
use aurora_client.Base.Dicts.{Dict, get, put, get-put, get-put_self}
use aurora_client.Thermos.Planner.{Name}
use aurora_client.Thermos.Ckpt.{
  ProcessStatus, RunnerState, RunnerCkpt, Runs, Dispatcher, out_of_order, invalid_sequence_number,
  key_eq, seq_order, new_run, run_machine, dispatch, dispatch_process, would_update,
  update_process_state,
}
use aurora_client.Thermos.Ckpt.Cases.{dispatch_process_ind}
use aurora_client.Thermos.Ckpt.Transition.{update_process_state-accepts, update_process_state-state}

-- A record that holds a process update and nothing else.
abbrev pub process_ckpt : ProcessStatus → RunnerCkpt
process_ckpt u = record { runner_header = none; process_status = some u; task_status = none }

-- A run is known for the process, with the sequence number `high`, and the update's is not the
-- next one.
pub record OutOfOrder (s : RunnerState) (u : ProcessStatus) : Type 0 where
  pub runs : Runs
  pub high : ℤ
  pub known : get s.processes u.process ≡ some runs
  pub seen : runs.current.seq ≡ some high
  pub apart : u.seq ≢ some (high +ℤ pos 1)

seq_order-apart :
    (s : RunnerState) (u : ProcessStatus)
    → OutOfOrder s u
    → seq_order (get s.processes u.process) u.seq ≡ out_of_order
unfolding seq_order
seq_order-apart s u o = elim (Option-cases u.seq) [
  | inl e ↦ ground (arith, o.known, o.seen)
  | inr (new, e) ↦ elim (Bool-cases (beq_ℤ new (o.high +ℤ pos 1))) [
    | inl same ↦ absurd (o.apart (e ∙ ap some ((beq_ℤ_iff new (o.high +ℤ pos 1)).0 same)))
    | inr apart ↦ ground (arith, o.known, o.seen)
  ]
]

-- An update that is not the next one of its process changes nothing and calls no handler: in
-- recovery it is skipped, else InvalidSequenceNumber is raised.
pub dispatch-OutOfOrder :
    (d : Dispatcher) (s : RunnerState) (u : ProcessStatus) (recovery truncate : Bool)
    → OutOfOrder s u
    → dispatch d s (process_ckpt u) recovery truncate
      ≡ (s, [], (if recovery then none else some invalid_sequence_number))
unfolding dispatch dispatch_process
dispatch-OutOfOrder d s u recovery truncate o = ground (arith, seq_order-apart s u o)

would_update-OutOfOrder :
    (s : RunnerState) (u : ProcessStatus)
    → would_update s (process_ckpt u) ≡ ok false
    → OutOfOrder s u
unfolding would_update
would_update-OutOfOrder s u h = elim (Option-cases (get s.processes u.process)) [
  | inl e ↦ ground arith
  | inr (runs, e) ↦ elim (Option-cases runs.current.seq) [
    | inl e' ↦ ground arith
    | inr (high, e') ↦ elim (Option-cases u.seq) [
      | inl e'' ↦ ground arith
      | inr (new, e'') ↦ record {
        runs = runs;
        high = high;
        known = e;
        seen = e';
        apart = λ same. ground (arith, +ℤ_parts high (pos 1));
      }
    ]
  ]
]

-- `would_update` is right to say no: such an update changes nothing when it is dispatched.
pub would_update-false :
    (d : Dispatcher) (s : RunnerState) (u : ProcessStatus) (recovery truncate : Bool)
    → would_update s (process_ckpt u) ≡ ok false
    → dispatch d s (process_ckpt u) recovery truncate
      ≡ (s, [], (if recovery then none else some invalid_sequence_number))
would_update-false d s u recovery truncate h =
    dispatch-OutOfOrder d s u recovery truncate (would_update-OutOfOrder s u h)

other_put :
    (p : Dict (Option Name) Runs) (k j : Option Name) (v : Runs)
    → k ≢ j
    → get (put p k v) j ≡ get p j
other_put p k j v h = ground (arith, get-put p k v j, ==_iff k j)

other_put2 :
    (p : Dict (Option Name) Runs) (k j : Option Name) (v w : Runs)
    → k ≢ j
    → get (put (put p k v) k w) j ≡ get p j
other_put2 p k j v w h = ground (arith, get-put (put p k v) k w j, get-put p k v j, ==_iff k j)

-- Where an accepted update stands afterwards.
abbrev pub Recorded : ProcessStatus → RunnerState → Type 0
Recorded u s =
    (runs : Runs) × (get s.processes u.process ≡ some runs)
    × (runs.current.seq ≡ u.seq)
    × (runs.current.state ≡ u.state)
    × (is_some u.seq ≡ true)

run_machine-Recorded :
    (d : Dispatcher) (s : RunnerState) (u : ProcessStatus) (runs : Runs)
    → (run_machine d s u.process (some runs) u).2 ≡ none
    → Recorded u (run_machine d s u.process (some runs) u).0
unfolding run_machine
run_machine-Recorded d s u runs h =
    let (state, seq) = update_process_state-state runs.current u h in
    let after = record runs { current = (update_process_state runs.current u).0 } in
    (
      after,
      get-put_self s.processes u.process after,
      seq,
      state,
      ground (arith, update_process_state-accepts runs.current u),
    )

-- An update that is dispatched with no error, outside recovery, is the last state of its process:
-- the last run has its state and its sequence number.
pub dispatch-Recorded :
    (d : Dispatcher) (s : RunnerState) (u : ProcessStatus) (truncate : Bool)
    → (dispatch d s (process_ckpt u) false truncate).2 ≡ none
    → Recorded u (dispatch d s (process_ckpt u) false truncate).0
unfolding dispatch
dispatch-Recorded d s u truncate =
    dispatch_process_ind (λ r. r.2 ≡ none → Recorded u r.0) d s u false truncate (λ _ h. cc)
      (λ _ h. cc) (λ _ _ _ h. cc) (λ _ _ _ h. cc)
      (λ _ _ _. run_machine-Recorded d _ u (new_run (get s.processes u.process) truncate))
      (λ runs _ _ _. run_machine-Recorded d s u runs)

some_injective : {x y : ℤ} → some x ≡ some y → x ≡ y
some_injective e = cc

next_apart : (q : ℤ) → q ≢ q +ℤ pos 1
next_apart q e = ground (arith, ap pos_part e, ap neg_part e, +ℤ_parts q (pos 1))

-- Replaying the record of a process status in recovery, right after it was dispatched with no error
-- and outside recovery, changes nothing and calls no handler. (Headers and task statuses are no
-- subject of this.)
pub replay_idempotent :
    (d e : Dispatcher) (s : RunnerState) (u : ProcessStatus) (truncate : Bool)
    → (dispatch d s (process_ckpt u) false truncate).2 ≡ none
    → let s' = (dispatch d s (process_ckpt u) false truncate).0 in
      dispatch e s' (process_ckpt u) true truncate ≡ (s', [], none)
replay_idempotent d e s u truncate h =
    let s' = (dispatch d s (process_ckpt u) false truncate).0 in
    let (runs, known, same, _, given) = dispatch-Recorded d s u truncate h in
    elim (Option-cases u.seq) [
      | inl missing ↦ ground arith
      | inr (q, has_q) ↦ dispatch-OutOfOrder e s' u true truncate (record {
        runs = runs;
        high = q;
        known = known;
        seen = same ∙ has_q;
        apart = λ same'. next_apart q (some_injective (sym has_q ∙ same'));
      })
    ]

-- A process update leaves the header, the task statuses and the runs of every other process as
-- they were, whether it is accepted, skipped or raises.
pub dispatch_frame :
    (d : Dispatcher) (s : RunnerState) (u : ProcessStatus) (recovery truncate : Bool)
    → (j : Option Name) → u.process ≢ j
    → let s' = (dispatch d s (process_ckpt u) recovery truncate).0 in
      (s'.header ≡ s.header) × (s'.statuses ≡ s.statuses) × (get s'.processes j ≡ get s.processes j)
unfolding dispatch
dispatch_frame d s u recovery truncate j h =
    dispatch_process_ind
      (λ r.
        (r.0.header ≡ s.header)
        × (r.0.statuses ≡ s.statuses)
        × (get r.0.processes j ≡ get s.processes j))
      d s u recovery truncate (λ _. (refl, refl, refl)) (λ _. (refl, refl, refl))
      (λ _ _ _. (refl, refl, refl)) (λ _ _ _. (refl, refl, refl))
      (λ _ _ _. unfold run_machine in (refl, refl, other_put2 s.processes u.process j _ _ h))
      (λ runs _ _ _. unfold run_machine in (refl, refl, other_put s.processes u.process j _ h))
