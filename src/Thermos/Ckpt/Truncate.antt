-- ===== src/Thermos/Ckpt/Truncate.antt =====
-- With `truncate` a dispatch forgets the history and nothing else.
use mathlib.Core.Option
use aurora_client.Base.{
  ◌≡◌, refl, Bool, true, false, Option, none, some, List, [], ◌∷◌, ◌++◌, arith, Result, ok, err,
  Option-cases, inl, inr,
}
use aurora_client.Base.Dicts.{get, put, map_values, get-map_values, map_values-put}
use aurora_client.Thermos.Planner.{Name}
use aurora_client.Thermos.Ckpt.{
  ProcessStatus, TaskStatus, RunnerState, RunnerHeader, RunnerCkpt, Runs, Dispatcher, Dispatched,
  Error, error_recovering_state, key_eq, seq_order, new_run, run_machine, dispatch, dispatch_header,
  dispatch_task, dispatch_process, may_restart, rebuild, from_file, empty, no_handlers,
}
use aurora_client.Thermos.Ckpt.Cases.{dispatch_process_ind}

abbrev pub latest : Runs → Runs
latest runs = record runs { earlier = [] }

abbrev pub last_only {ℓ} : {A : Type ℓ} → List A → List A
last_only [] = []
last_only (x ∷ []) = x ∷ []
last_only (x ∷ y ∷ xs) = last_only (y ∷ xs)

-- What `truncate` keeps of a state: the last task status, and the last run of every process.
unfoldable pub truncated : RunnerState → RunnerState
truncated s = record s {
  statuses = last_only s.statuses;
  processes = map_values latest s.processes;
}

abbrev lift : Dispatched → Dispatched
lift (s, calls, raised) = (truncated s, calls, raised)

last_only-append {ℓ} : {A : Type ℓ} (xs : List A) (x : A) → last_only (xs ++ x ∷ []) ≡ x ∷ []
last_only-append [] x = refl
last_only-append (y ∷ []) x = refl
last_only-append (y ∷ z ∷ xs) x = last_only-append (z ∷ xs) x

run_machine-lift :
    (d : Dispatcher) (s : RunnerState) (name : Option Name) (found : Option Runs)
    (u : ProcessStatus)
    → run_machine d (truncated s) name (Option.map latest found) u
      ≡ lift (run_machine d s name found u)
unfolding run_machine truncated
run_machine-lift d s name none u = refl
run_machine-lift d s name (some runs) u = rw map_values-put

seq_order-latest :
    (found : Option Runs) (u : ProcessStatus)
    → seq_order (Option.map latest found) u.seq ≡ seq_order found u.seq
unfolding seq_order
seq_order-latest none u = refl
seq_order-latest (some runs) u = refl

new_run-latest :
    (found : Option Runs) → new_run (Option.map latest found) true ≡ latest (new_run found false)
unfolding new_run
new_run-latest none = refl
new_run-latest (some runs) = refl

may_restart-latest :
    (found : Option Runs) → may_restart (Option.map latest found) ≡ may_restart found
may_restart-latest none = refl
may_restart-latest (some runs) = refl

truncated-put :
    (s : RunnerState) (k : Option Name) (r : Runs)
    → truncated (record s { processes = put s.processes k r })
      ≡ record (truncated s) { processes = put (truncated s).processes k (latest r) }
unfolding truncated
truncated-put s k r = rw map_values-put

found-latest :
    (s : RunnerState) (k : Option Name)
    → get (truncated s).processes k ≡ Option.map latest (get s.processes k)
unfolding truncated
found-latest s k = get-map_values latest s.processes k

module _ (d : Dispatcher) (s : RunnerState) (u : ProcessStatus) (recovery : Bool) where
  abbrev Same : Dispatched → Type 0
  Same r = dispatch_process d (truncated s) u recovery true ≡ lift r

  abbrev old : Option Runs
  old = get s.processes u.process

  -- What the truncated dispatch reads, in terms of the full state.
  facts :
      (seq_order (get (truncated s).processes u.process) u.seq ≡ seq_order old u.seq)
      × (may_restart (get (truncated s).processes u.process) ≡ may_restart old)
      × (new_run (get (truncated s).processes u.process) true ≡ latest (new_run old false))
  facts = (
    rw (found-latest s u.process) (seq_order-latest old u),
    rw (found-latest s u.process) (may_restart-latest old),
    rw (found-latest s u.process) (new_run-latest old),
  )

  machine :
      (o : Option Runs)
      → old ≡ o
      → run_machine d (truncated s) u.process (get (truncated s).processes u.process) u
        ≡ lift (run_machine d s u.process o u)
  machine o e = rw (found-latest s u.process) (rw e (run_machine-lift d s u.process o u))

  machine_unknown :
      old ≡ none
      → run_machine d (truncated s) u.process (get (truncated s).processes u.process) u
        ≡ (truncated s, [], some error_recovering_state)
  unfolding run_machine
  machine_unknown e = machine none e

  process-lift :
      dispatch_process d (truncated s) u recovery true
      ≡ lift (dispatch_process d s u recovery false)
  unfolding dispatch_process
  process-lift =
      dispatch_process_ind Same d s u recovery false (λ o. ground (arith, facts))
        (λ o. ground (arith, facts)) (λ o w m. ground (arith, facts))
        (λ o w f. ground (arith, facts, machine_unknown f))
        (λ o w m. ground (
          arith,
          facts,
          truncated-put s u.process (new_run old false),
          run_machine-lift d
              (record s { processes = put s.processes u.process (new_run old false) }) u.process
              (some (new_run old false)) u,
        ))
        (λ runs f o w. ground (arith, facts, machine (some runs) f))

task-lift :
    (d : Dispatcher) (s : RunnerState) (status : TaskStatus)
    → dispatch_task d (truncated s) status true ≡ lift (dispatch_task d s status false)
unfolding dispatch_task truncated
task-lift d s status = rw last_only-append

header-lift :
    (d : Dispatcher) (s : RunnerState) (header : RunnerHeader)
    → dispatch_header d (truncated s) header ≡ lift (dispatch_header d s header)
unfolding dispatch_header truncated
header-lift d s header = ground arith

-- Dispatching with `truncate` to a state without history gives what the full dispatch gives, less
-- the history: the same last runs and last status, the same handler calls and the same error.
pub dispatch-truncated :
    (d : Dispatcher) (s : RunnerState) (ckpt : RunnerCkpt) (recovery : Bool)
    → let (full, calls, raised) = dispatch d s ckpt recovery false in
      dispatch d (truncated s) ckpt recovery true ≡ (truncated full, calls, raised)
unfolding dispatch
dispatch-truncated d s ckpt recovery = elim (Option-cases ckpt.runner_header) [
  | inr (header, e) ↦ rw (e, dispatch) (header-lift d s header)
  | inl e ↦ elim (Option-cases ckpt.task_status) [
    | inr (status, e') ↦ rw (e, dispatch) (rw (e', dispatch) (task-lift d s status))
    | inl e' ↦ elim (Option-cases ckpt.process_status) [
      | inl e'' ↦ rw (e, dispatch) (rw (e', dispatch) (rw (e'', dispatch)))
      | inr (u, e'') ↦
          rw (e, dispatch) (rw (e', dispatch) (rw (e'', dispatch) (process-lift d s u recovery)))
    ]
  ]
]

abbrev Rebuilt : Type 0
Rebuilt = RunnerState × Option Error

abbrev forget : Rebuilt → Rebuilt
forget (s, raised) = (truncated s, raised)

rebuild-truncated :
    (updates : List RunnerCkpt) (s : RunnerState) (broken : Bool)
    → rebuild (truncated s) updates broken true ≡ forget (rebuild s updates broken false)
unfolding rebuild
rebuild-truncated [] s broken = refl
rebuild-truncated (u ∷ us) s broken =
    let (full, calls, raised) = dispatch no_handlers s u false false in
    ground (arith, dispatch-truncated no_handlers s u false, rebuild-truncated us full broken)

abbrev pub forget_result : Result Error (Option RunnerState) → Result Error (Option RunnerState)
forget_result (ok (some s)) = ok (some (truncated s))
forget_result (ok none) = ok none
forget_result (err e) = err e

empty-truncated : truncated empty ≡ empty
unfolding truncated map_values
empty-truncated = refl

-- Reading a checkpoint with `truncate` gives the state that reading it in full gives, less the
-- history; it fails, and raises, on the same files.
pub from_file-truncated :
    (updates : List RunnerCkpt) (broken : Bool)
    → from_file updates broken true ≡ forget_result (from_file updates broken false)
unfolding from_file
from_file-truncated updates broken =
    ground (arith, rebuild-truncated updates empty broken, empty-truncated)
