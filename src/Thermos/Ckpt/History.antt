-- ===== src/Thermos/Ckpt/History.antt =====
-- The runs of one process that a state holds, whatever records were dispatched.
use aurora_client.Base.{
  ◌≡◌, refl, Bool, true, false, ◌&&◌, Option, none, some, arith, if◌then◌else◌, is_some, all,
  all_mono, all-append, subst, Option-cases, Bool-cases, inl, inr, ◌==◌,
}
use aurora_client.Base.Int.{ℤ, pos, ◌+ℤ◌, ltb_ℤ, beq_ℤ_iff, +ℤ_parts}
use aurora_client.Thermos.Planner.{Name}
use aurora_client.Base.Dicts.{get, put, get-put}
use aurora_client.Thermos.Ckpt.{
  ProcessState, waiting, forked, running, success, killed, failed, lost, ProcessStatus, RunnerState,
  RunnerHeader, TaskStatus, RunnerCkpt, Runs, Dispatcher, in_order, key_eq, seq_order, new_run,
  run_machine, dispatch, dispatch_header, dispatch_task, dispatch_process, update_process_state,
  advance, is_terminal, terminal, may_restart,
}
use aurora_client.Thermos.Ckpt.Cases.{dispatch_process_ind}

abbrev pub seq_lt : Option ℤ → Option ℤ → Bool
seq_lt (some a) (some b) = ltb_ℤ a b
seq_lt _ _ = false

abbrev before : Option ℤ → ProcessStatus → Bool
before seq s = terminal s.state && seq_lt s.seq seq

-- Every run but the last has ended, under a lower sequence number than the last run has.
abbrev pub IsHistory : Runs → Type 0
IsHistory runs = all (λ s. terminal s.state && seq_lt s.seq runs.current.seq) runs.earlier ≡ true

pub record Histories (s : RunnerState) : Type 0 where
  pub at : (k : Option Name) (runs : Runs) → get s.processes k ≡ some runs → IsHistory runs

advance-seq :
    (state : Option ProcessState) (s u : ProcessStatus) → (advance state s u).0.seq ≡ s.seq
unfolding advance
advance-seq none s u = refl
advance-seq (some waiting) s u = ground arith
advance-seq (some forked) s u = ground arith
advance-seq (some running) s u = ground arith
advance-seq (some success) s u = ground arith
advance-seq (some killed) s u = ground arith
advance-seq (some failed) s u = ground arith
advance-seq (some lost) s u = ground arith

seq-update :
    (s u : ProcessStatus)
    → (update_process_state s u).0.seq ≡ (if is_some u.seq then u.seq else s.seq)
unfolding update_process_state
seq-update s u = ground (arith, advance-seq u.state (record s { seq = u.seq }) u)

-- The next sequence number is above all that were below the one before it, and above that one.
seq_lt-next :
    (runs : Runs) (seq x : Option ℤ)
    → seq_order (some runs) seq ≡ in_order
    → (seq_lt x runs.current.seq ≡ true → seq_lt x seq ≡ true)
      × (seq_lt runs.current.seq seq ≡ true)
      × (is_some seq ≡ true)
unfolding seq_order
seq_lt-next runs seq x h = elim (Option-cases runs.current.seq) [
  | inl e ↦ ground arith
  | inr (high, e) ↦ elim (Option-cases seq) [
    | inl e' ↦ ground arith
    | inr (new, e') ↦ (
      λ m. ground (arith, beq_ℤ_iff new (high +ℤ pos 1), +ℤ_parts high (pos 1)),
      ground (arith, beq_ℤ_iff new (high +ℤ pos 1), +ℤ_parts high (pos 1)),
      ground arith,
    )
  ]
]

-- A run whose sequence number moves on to the next keeps its history.
updated-IsHistory :
    (runs : Runs) (u : ProcessStatus)
    → seq_order (some runs) u.seq ≡ in_order
    → IsHistory runs
    → IsHistory (record runs { current = (update_process_state runs.current u).0 })
updated-IsHistory runs u o h =
    rw (seq-update runs.current u, (seq_lt-next runs u.seq none o).2)
      (all_mono (before runs.current.seq) (before u.seq) runs.earlier
        (λ x e. ground (arith, (seq_lt-next runs u.seq x.seq o).0)) h)

-- So does the new run that WAITING starts.
restarted-IsHistory :
    (found : Option Runs) (u : ProcessStatus) (truncate : Bool)
    → seq_order found u.seq ≡ in_order
    → may_restart found ≡ true
    → ((runs : Runs) → found ≡ some runs → IsHistory runs)
    → let runs = new_run found truncate in
      IsHistory (record runs { current = (update_process_state runs.current u).0 })
unfolding new_run is_terminal
restarted-IsHistory none u truncate o m h = refl
restarted-IsHistory (some runs) u true o m h = refl
restarted-IsHistory (some runs) u false o m h =
    rw (seq-update _ u, (seq_lt-next runs u.seq none o).2, all-append)
      (ground (
        arith,
        all_mono (before runs.current.seq) (before u.seq) runs.earlier
            (λ x e. ground (arith, (seq_lt-next runs u.seq x.seq o).0)) (h runs refl),
        (seq_lt-next runs u.seq none o).1,
        m,
      ))

put-Histories :
    (s : RunnerState) (k : Option Name) (r : Runs)
    → Histories s
    → IsHistory r
    → Histories (record s { processes = put s.processes k r })
put-Histories s k r h v = record {
  at = λ j runs e. elim (Bool-cases (k == j)) [
    | inl same ↦
        let e' : r ≡ runs = ground (arith, get-put s.processes k r j) in subst IsHistory e' v
    | inr other ↦ h.at j runs (ground (arith, get-put s.processes k r j))
  ];
}

put_twice :
    (s : RunnerState) (k : Option Name) (v r : Runs)
    → Histories s
    → IsHistory r
    → Histories (record s { processes = put (put s.processes k v) k r })
put_twice s k v r h i = record {
  at = λ j runs e. elim (Bool-cases (k == j)) [
    | inl same ↦
        let e' : r ≡ runs = ground (arith, get-put (put s.processes k v) k r j) in
        subst IsHistory e' i
    | inr other ↦
        h.at j runs (ground (arith, get-put (put s.processes k v) k r j, get-put s.processes k v j))
  ];
}

process-Histories :
    (d : Dispatcher) (s : RunnerState) (u : ProcessStatus) (recovery truncate : Bool)
    → Histories s
    → Histories (dispatch_process d s u recovery truncate).0
unfolding run_machine
process-Histories d s u recovery truncate h =
    dispatch_process_ind (λ r. Histories r.0) d s u recovery truncate (λ _. h) (λ _. h) (λ _ _ _. h)
      (λ _ _ _. h)
      (λ o w m.
        put_twice s u.process _ _ h
          (restarted-IsHistory (get s.processes u.process) u truncate o m (h.at u.process)))
      (λ runs e o w. put-Histories s u.process _ h (
        updated-IsHistory runs u (subst (λ f. seq_order f u.seq ≡ in_order) e o)
          (h.at u.process runs e)))

header-Histories :
    (d : Dispatcher) (s : RunnerState) (header : RunnerHeader)
    → Histories s
    → Histories (dispatch_header d s header).0
unfolding dispatch_header
header-Histories d s header h = elim (Bool-cases (is_some s.header)) [
  | inl e ↦ rw e h
  | inr e ↦ rw e (record { at = h.at })
]

task-Histories :
    (d : Dispatcher) (s : RunnerState) (status : TaskStatus) (truncate : Bool)
    → Histories s
    → Histories (dispatch_task d s status truncate).0
unfolding dispatch_task
task-Histories d s status truncate h = record { at = h.at }

-- Whatever record is dispatched, in whatever mode, and whether it is accepted or raises: all runs
-- of a process but its last have ended, each under a lower sequence number than the last run has.
pub dispatch-Histories :
    (d : Dispatcher) (s : RunnerState) (ckpt : RunnerCkpt) (recovery truncate : Bool)
    → Histories s
    → Histories (dispatch d s ckpt recovery truncate).0
unfolding dispatch
dispatch-Histories d s ckpt recovery truncate h = elim (Option-cases ckpt.runner_header) [
  | inr (header, e) ↦ rw (e, dispatch) (header-Histories d s header h)
  | inl e ↦ elim (Option-cases ckpt.task_status) [
    | inr (status, e') ↦ rw (e, dispatch) (rw (e', dispatch) (task-Histories d s status truncate h))
    | inl e' ↦ elim (Option-cases ckpt.process_status) [
      | inl e'' ↦ rw (e, dispatch) (rw (e', dispatch) (rw (e'', dispatch) h))
      | inr (u, e'') ↦
          rw (e, dispatch)
            (rw (e', dispatch) (rw (e'', dispatch) (process-Histories d s u recovery truncate h)))
    ]
  ]
]
