-- ===== src/Thermos/Helper/Consistent.antt =====
-- What the runs of a checkpoint have, whatever records it holds: src/main/python/apache/thermos/common/
-- ckpt.py asserts the fields that src/main/python/apache/thermos/core/helper.py relies on.
use aurora_client.Base.{
  ◌≡◌, refl, subst, sym, Bool, true, false, not, ◌&&◌, ◌||◌, Option, none, some, List, [], ◌∷◌,
  ◌++◌, arith, is_some, Option-cases, Bool-cases, inl, inr, ◌==◌, ==_iff,
}
use aurora_client.Base.Int.{ℤ}
use aurora_client.Thermos.Planner.{Name}
use aurora_client.Base.Dicts.{get, put, get-put, IsDict, put-IsDict}
use aurora_client.Thermos.Ckpt.{
  ProcessState, waiting, forked, running, success, killed, failed, lost, ProcessStatus, RunnerState,
  RunnerHeader, TaskStatus, RunnerCkpt, Runs, Dispatcher, key_eq, new_run, fresh, run_machine,
  dispatch, dispatch_header, dispatch_task, dispatch_process, update_process_state, advance,
  is_state, rebuild, no_handlers, empty,
}
use aurora_client.Thermos.Ckpt.Cases.{dispatch_process_ind}

-- A run with the pid and time of its coordinator, and one with its own pid and time, too.
abbrev pub has_coordinator : ProcessStatus → Bool
has_coordinator r = is_some r.coordinator_pid && is_some r.fork_time

abbrev pub has_process : ProcessStatus → Bool
has_process r = has_coordinator r && is_some r.pid && is_some r.start_time

abbrev pub has_no_pid : ProcessStatus → Bool
has_no_pid r = not (is_some r.coordinator_pid) && not (is_some r.pid)

abbrev pub has_result : ProcessStatus → Bool
has_result r = is_some r.stop_time && is_some r.return_code

-- The fields that go with a state. A failed run, and one that is lost, has no result of its own.
unfoldable pub has_fields : Option ProcessState → ProcessStatus → Bool
has_fields none r = false
has_fields (some waiting) r = has_no_pid r
has_fields (some forked) r = has_coordinator r && not (is_some r.pid)
has_fields (some running) r = has_process r
has_fields (some success) r = has_process r && has_result r
has_fields (some failed) r = has_no_pid r || has_process r
has_fields (some killed) r =
    has_coordinator r && (not (is_some r.pid) || has_process r) && has_result r
has_fields (some lost) r = has_coordinator r && (not (is_some r.pid) || has_process r)

unfoldable pub is_consistent : Option Name → ProcessStatus → Bool
is_consistent key r = (r.process == key) && is_some r.seq && has_fields r.state r

advance-is_consistent :
    (state : Option ProcessState) (key : Option Name) (r u : ProcessStatus)
    → u.state ≡ state
    → is_consistent key r ≡ true
    → (advance state r u).1 ≡ none
    → is_consistent key (advance state r u).0 ≡ true
unfolding advance is_consistent has_fields
advance-is_consistent none key r u e h a = ground arith
advance-is_consistent (some waiting) key r u e h a = ground arith
advance-is_consistent (some forked) key r u e h a = ground arith
advance-is_consistent (some running) key r u e h a = ground arith
advance-is_consistent (some success) key r u e h a = ground arith
advance-is_consistent (some killed) key r u e h a = ground arith
advance-is_consistent (some failed) key r u e h a = ground arith
advance-is_consistent (some lost) key r u e h a = ground arith

has_fields-seq :
    (state : Option ProcessState) (r : ProcessStatus) (seq : Option ℤ)
    → has_fields state (record r { seq = seq }) ≡ has_fields state r
unfolding has_fields
has_fields-seq none r seq = refl
has_fields-seq (some waiting) r seq = refl
has_fields-seq (some forked) r seq = refl
has_fields-seq (some running) r seq = refl
has_fields-seq (some success) r seq = refl
has_fields-seq (some killed) r seq = refl
has_fields-seq (some failed) r seq = refl
has_fields-seq (some lost) r seq = refl

renumbered :
    (key : Option Name) (r : ProcessStatus) (seq : Option ℤ)
    → is_consistent key r ≡ true
    → is_some seq ≡ true
    → is_consistent key (record r { seq = seq }) ≡ true
unfolding is_consistent
renumbered key r seq h k = ground (arith, has_fields-seq r.state r seq)

update-is_consistent :
    (key : Option Name) (r u : ProcessStatus)
    → is_consistent key r ≡ true
    → (update_process_state r u).1 ≡ none
    → is_consistent key (update_process_state r u).0 ≡ true
unfolding update_process_state
update-is_consistent key r u h a = ground (
  arith,
  renumbered key r u.seq h,
  advance-is_consistent u.state key (record r { seq = u.seq }) u refl,
)

fresh-is_consistent :
    (seq : Option ℤ) (u : ProcessStatus)
    → is_state u.state (some waiting) ≡ true
    → (update_process_state (fresh seq) u).1 ≡ none
    → is_consistent u.process (update_process_state (fresh seq) u).0 ≡ true
unfolding update_process_state advance is_consistent has_fields
fresh-is_consistent seq u w a = ground (arith, ==_iff u.process u.process)

-- The state that a checkpoint is read into.
pub record IsReadable (s : RunnerState) : Type 0 where
  pub one_entry : IsDict s.processes
  pub runs :
      (key : Option Name) (r : Runs)
      → get s.processes key ≡ some r
      → is_consistent key r.current ≡ true

put-IsReadable :
    (s : RunnerState) (key : Option Name) (r : Runs)
    → IsReadable s
    → is_consistent key r.current ≡ true
    → IsReadable (record s { processes = put s.processes key r })
put-IsReadable s key r h ok_run = record {
  one_entry = put-IsDict s.processes key r h.one_entry;
  runs = λ j r' found. elim (Bool-cases (key == j)) [
    | inl same ↦ ground (arith, get-put s.processes key r j, ==_iff key j)
    | inr other ↦ h.runs j r' (ground (arith, get-put s.processes key r j))
  ];
}

run_machine-IsReadable :
    (d : Dispatcher) (s : RunnerState) (key : Option Name) (r : Runs) (u : ProcessStatus)
    → IsReadable s
    → ((update_process_state r.current u).1 ≡ none
        → is_consistent key (update_process_state r.current u).0 ≡ true)
    → (run_machine d s key (some r) u).2 ≡ none
    → IsReadable (run_machine d s key (some r) u).0
unfolding run_machine
run_machine-IsReadable d s key r u h step raised =
    put-IsReadable s key (record r { current = (update_process_state r.current u).0 }) h
      (step raised)

restarted-IsReadable :
    (d : Dispatcher) (s : RunnerState) (r : Runs) (u : ProcessStatus)
    → IsReadable s
    → is_consistent u.process (update_process_state r.current u).0 ≡ true
    → IsReadable
        (run_machine d
          (record s { processes = put s.processes u.process r })
          u.process
          (some r)
          u).0
unfolding run_machine
restarted-IsReadable d s r u h ok_run = record {
  one_entry =
      put-IsDict (put s.processes u.process r) u.process
        (record r { current = (update_process_state r.current u).0 })
        (put-IsDict s.processes u.process r h.one_entry);
  runs = λ j r' found. elim (Bool-cases (u.process == j)) [
    | inl same ↦ ground (
      arith,
      get-put (put s.processes u.process r) u.process
          (record r { current = (update_process_state r.current u).0 }) j,
      ==_iff u.process j,
    )
    | inr other ↦ h.runs j r' (
        ground (
          arith,
          get-put (put s.processes u.process r) u.process
              (record r { current = (update_process_state r.current u).0 }) j,
          get-put s.processes u.process r j,
        ))
  ];
}

current-new_run :
    (found : Option Runs) (truncate : Bool)
    → (seq : Option ℤ) × ((new_run found truncate).current ≡ fresh seq)
unfolding new_run
current-new_run none truncate = (_, refl)
current-new_run (some runs) truncate = (_, refl)

dispatch_process-IsReadable :
    (d : Dispatcher) (s : RunnerState) (u : ProcessStatus) (recovery truncate : Bool)
    → IsReadable s
    → (dispatch_process d s u recovery truncate).2 ≡ none
    → IsReadable (dispatch_process d s u recovery truncate).0
dispatch_process-IsReadable d s u recovery truncate h =
    dispatch_process_ind (λ r. r.2 ≡ none → IsReadable r.0) d s u recovery truncate (λ _ _. h)
      (λ _ _. h) (λ _ _ _ _. h) (λ _ _ _ _. h)
      (λ o w m raised.
        let found = get s.processes u.process in
        let (seq, is_fresh) = current-new_run found truncate in
        restarted-IsReadable d s (new_run found truncate) u h (
          subst
            (λ r.
              (update_process_state r u).1 ≡ none
              → is_consistent u.process (update_process_state r u).0 ≡ true)
            (sym is_fresh) (fresh-is_consistent seq u w) (unfold run_machine in raised)))
      (λ runs found o w raised.
        run_machine-IsReadable d s u.process runs u h
          (update-is_consistent u.process runs.current u (h.runs u.process runs found)) raised)

dispatch_task-IsReadable :
    (d : Dispatcher) (s : RunnerState) (status : TaskStatus) (truncate : Bool)
    → IsReadable s
    → IsReadable (dispatch_task d s status truncate).0
unfolding dispatch_task
dispatch_task-IsReadable d s status truncate h = record { one_entry = h.one_entry; runs = h.runs }

dispatch_header-IsReadable :
    (d : Dispatcher) (s : RunnerState) (header : RunnerHeader)
    → IsReadable s
    → IsReadable (dispatch_header d s header).0
unfolding dispatch_header
dispatch_header-IsReadable d s header h = elim (Bool-cases (is_some s.header)) [
  | inl twice ↦ rw twice h
  | inr first ↦ rw first (record { one_entry = h.one_entry; runs = h.runs })
]

pub dispatch-IsReadable :
    (d : Dispatcher) (s : RunnerState) (ckpt : RunnerCkpt) (recovery truncate : Bool)
    → IsReadable s
    → (dispatch d s ckpt recovery truncate).2 ≡ none
    → IsReadable (dispatch d s ckpt recovery truncate).0
unfolding dispatch
dispatch-IsReadable d s ckpt recovery truncate h raised = elim (Option-cases ckpt.runner_header) [
  | inr (header, e) ↦ rw (e, dispatch) (dispatch_header-IsReadable d s header h)
  | inl e ↦ elim (Option-cases ckpt.task_status) [
    | inr (status, e') ↦
        rw (e, dispatch) (rw (e', dispatch) (dispatch_task-IsReadable d s status truncate h))
    | inl e' ↦ elim (Option-cases ckpt.process_status) [
      | inl e'' ↦ rw (e, dispatch) (rw (e', dispatch) (rw (e'', dispatch) h))
      | inr (u, e'') ↦
          rw (e, dispatch)
            (rw (e', dispatch)
              (rw (e'', dispatch)
                (dispatch_process-IsReadable d s u recovery truncate h
                  (ground (arith, e, e', e'')))))
    ]
  ]
]

-- Let each process of a runner's state have one entry, and its current run the name of the process, a
-- sequence number and the fields of its state: no pid where it waits; the pid and the fork time of its
-- coordinator from FORKED on, and its own pid and start time from RUNNING on; a stop time and a return
-- code where it succeeded or was killed, but for FAILED and LOST nothing of how it ended. (A failed run
-- may have waited until then, and a killed or lost one may have been only forked.) A checkpoint that is
-- read into the state without an error keeps all of this.
pub rebuild-IsReadable :
    (s s' : RunnerState) (records : List RunnerCkpt) (broken truncate : Bool)
    → IsReadable s
    → rebuild s records broken truncate ≡ (s', none)
    → IsReadable s'
unfolding rebuild
rebuild-IsReadable s s' [] broken truncate h read = subst IsReadable (ground arith) h
rebuild-IsReadable s s' (u ∷ records) broken truncate h read =
    let (s1, _, raised) = dispatch no_handlers s u false truncate in
    elim (Option-cases raised) [
      | inl fine ↦
          rebuild-IsReadable s1 s' records broken truncate
            (dispatch-IsReadable no_handlers s u false truncate h fine) (ground (arith, fine))
      | inr (e, stopped) ↦ absurd (ground (arith, stopped))
    ]

pub empty-IsReadable : IsReadable empty
unfolding get IsDict
empty-IsReadable = record { one_entry = tt; runs = λ key r found. ground (arith, found) }

pub rebuild-append :
    (s s' : RunnerState) (records more : List RunnerCkpt) (broken truncate : Bool)
    → rebuild s records false truncate ≡ (s', none)
    → rebuild s (records ++ more) broken truncate ≡ rebuild s' more broken truncate
unfolding rebuild
rebuild-append s s' [] more broken truncate read = ground arith
rebuild-append s s' (u ∷ records) more broken truncate read =
    let (s1, _, raised) = dispatch no_handlers s u false truncate in
    elim (Option-cases raised) [
      | inl fine ↦
          ground
            (arith, fine, rebuild-append s1 s' records more broken truncate (ground (arith, fine)))
      | inr (e, stopped) ↦ absurd (ground (arith, stopped))
    ]
