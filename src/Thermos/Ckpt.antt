-- ===== src/Thermos/Ckpt.antt =====
-- src/main/python/apache/thermos/common/ckpt.py over the structs of
-- api/src/main/thrift/org/apache/thermos/thermos_internal.thrift: how the state of a runner is
-- rebuilt from the records of its checkpoint. Times and ids are integers that are only copied.
pub mod Cases
pub mod Transition
pub mod Sequence
pub mod History
pub mod Truncate
pub mod Samples
use aurora_client.Base.{
  ℕ, suc, ◌+◌, String, Bool, true, false, not, ◌&&◌, ◌||◌, Option, none, some, List, [], ◌∷◌, ◌++◌,
  map, ◌↔◌, ◌≡◌, refl, ap, arith, if◌then◌else◌, is_some, is_nil, string_eq, Result, ok, err, ◌>>=◌,
  nat_beq, Eq, ◌==◌, ==_iff, ltb,
}
use aurora_client.Base.Int.{ℤ, pos, negsuc, ◌+ℤ◌, ltb_ℤ, beq_ℤ, int_eq}
use aurora_client.Base.Dicts.{Dict, get, put, has}
use aurora_client.Thermos.Planner.{Name}

pub data ProcessState : Type 0 where
  waiting forked running success killed failed lost : ProcessState

pub data TaskState : Type 0 where
  active cleaning finalizing succeeded task_failed task_killed task_lost : TaskState

pub record ProcessStatus : Type 0 where
  pub seq : Option ℤ
  pub process : Option Name
  pub state : Option ProcessState
  pub coordinator_pid : Option ℤ
  pub fork_time : Option ℤ
  pub start_time : Option ℤ
  pub pid : Option ℤ
  pub stop_time : Option ℤ
  pub return_code : Option ℤ

pub record TaskStatus : Type 0 where
  pub state : Option TaskState
  pub timestamp_ms : ℤ
  pub runner_pid : ℤ

pub record RunnerHeader : Type 0 where
  pub task_id : String
  pub sandbox : String
  pub user : String
  pub uid : Option ℤ
  pub ports : Dict String ℕ

pub record RunnerCkpt : Type 0 where
  pub runner_header : Option RunnerHeader
  pub process_status : Option ProcessStatus
  pub task_status : Option TaskStatus

-- `state.processes[name]`: a list that is never empty, as its last item and those before it.
pub record Runs : Type 0 where
  pub earlier : List ProcessStatus
  pub current : ProcessStatus

-- A name may be missing in a record, and `None` is a key like any other.
unfoldable pub beq_key : Option Name → Option Name → Bool
beq_key none none = true
beq_key (some a) (some b) = a == b
beq_key _ _ = false

pub beq_key_iff : (a b : Option Name) → (beq_key a b ≡ true) ↔ (a ≡ b)
unfolding beq_key
beq_key_iff none none = (λ _. refl, λ _. refl)
beq_key_iff (some a) (some b) =
    ((λ h. ap some ((==_iff a b).0 h)), (λ h. ground (arith, ==_iff a b)))
beq_key_iff none (some b) = ((λ h. cc), (λ h. cc))
beq_key_iff (some a) none = ((λ h. cc), (λ h. cc))

instance abbrev pub key_eq : Eq (Option Name)
key_eq = record { beq = beq_key; beq_iff = beq_key_iff }

-- Without statuses (`None`) the list is empty.
pub record RunnerState : Type 0 where
  pub header : Option RunnerHeader
  pub statuses : List TaskStatus
  pub processes : Dict (Option Name) Runs

pub data Error : Type 0 where
  error_recovering_state invalid_sequence_number invalid_handler assertion_error type_error
        key_error :
      Error

-- The handlers by identity, and the calls that a dispatch makes, in order.
pub record Dispatcher : Type 0 where
  pub task_handlers : List ℕ
  pub process_handlers : List ℕ
  pub universal_handlers : List ℕ

pub data HandlerCall : Type 0 where
  on_process_transition on_process : ℕ → ProcessState → ProcessStatus → HandlerCall
  on_task_transition : ℕ → Option TaskState → TaskStatus → HandlerCall
  on_task : ℕ → TaskState → TaskStatus → HandlerCall
  on_initialization : ℕ → RunnerHeader → HandlerCall

-- The first of the three interfaces that a handler implements.
pub data HandlerType : Type 0 where
  task_state_handler process_state_handler universal_state_handler other_handler : HandlerType

unfoldable pub register_handler : Dispatcher → ℕ → HandlerType → Result Error Dispatcher
register_handler d h task_state_handler =
    ok (record d { task_handlers = d.task_handlers ++ h ∷ [] })
register_handler d h process_state_handler =
    ok (record d { process_handlers = d.process_handlers ++ h ∷ [] })
register_handler d h universal_state_handler =
    ok (record d { universal_handlers = d.universal_handlers ++ h ∷ [] })
register_handler d h other_handler = err invalid_handler

unfoldable pub run_process_dispatch : Dispatcher → ProcessState → ProcessStatus → List HandlerCall
run_process_dispatch d state update =
    map (λ h. on_process_transition h state update) d.universal_handlers
    ++ map (λ h. on_process h state update) d.process_handlers

-- A missing state has no name to call a task handler by.
unfoldable pub run_task_dispatch :
    Dispatcher → Option TaskState → TaskStatus → List HandlerCall × Option Error
run_task_dispatch d (some state) update = (
  map (λ h. on_task_transition h (some state) update) d.universal_handlers
      ++ map (λ h. on_task h state update) d.task_handlers,
  none,
)
run_task_dispatch d none update = (
  map (λ h. on_task_transition h none update) d.universal_handlers,
  if is_nil d.task_handlers then none else some key_error,
)

unfoldable pub run_header_dispatch : Dispatcher → RunnerHeader → List HandlerCall
run_header_dispatch d header = map (λ h. on_initialization h header) d.universal_handlers

abbrev pub terminal : Option ProcessState → Bool
terminal (some success) = true
terminal (some failed) = true
terminal (some killed) = true
terminal (some lost) = true
terminal _ = false

unfoldable pub is_terminal : ProcessStatus → Bool
is_terminal s = terminal s.state

-- The value of the thrift enum, by which states are compared.
abbrev pub number : Option ProcessState → ℕ
number (some waiting) = 0
number (some forked) = 1
number (some running) = 2
number (some success) = 3
number (some killed) = 4
number (some failed) = 5
number (some lost) = 6
number none = 7

abbrev pub is_state : Option ProcessState → Option ProcessState → Bool
is_state a b = nat_beq (number a) (number b)

abbrev Updated : Type 0
Updated = ProcessStatus × Option Error

-- `copy_fields` asserts that all fields are there before it copies the first.
abbrev copy_fields : Bool → ProcessStatus → ProcessStatus → Updated
copy_fields true old new = (new, none)
copy_fields false old new = (old, some assertion_error)

abbrev assert_state : Bool → ProcessStatus → Updated → Updated
assert_state true old rest = rest
assert_state false old rest = (old, some error_recovering_state)

-- The branches of `_update_process_state`, after `seq` has been copied. `s` is the run, `u` the
-- update.
unfoldable pub advance : Option ProcessState → ProcessStatus → ProcessStatus → Updated
advance (some waiting) s u =
    assert_state (is_state s.state none) s
      (copy_fields (is_some u.process) s (record s { state = u.state; process = u.process }))
advance (some forked) s u = assert_state (is_state s.state (some waiting)) s (
    copy_fields (is_some u.fork_time && is_some u.coordinator_pid) s
      (record s { state = u.state; fork_time = u.fork_time; coordinator_pid = u.coordinator_pid }))
advance (some running) s u = assert_state (is_state s.state (some forked)) s (
    copy_fields (is_some u.start_time && is_some u.pid) s
      (record s { state = u.state; start_time = u.start_time; pid = u.pid }))
advance (some success) s u = assert_state (is_state s.state (some running)) s (
    copy_fields (is_some u.stop_time && is_some u.return_code) s
      (record s { state = u.state; stop_time = u.stop_time; return_code = u.return_code }))
-- The inner test is on the state of the update, which is FAILED on this branch.
advance (some failed) s u =
    assert_state (is_state s.state (some waiting) || is_state s.state (some running)) s (
      if is_state u.state (some running)
      then copy_fields (is_some u.stop_time && is_some u.return_code) s
          (record s { state = u.state; stop_time = u.stop_time; return_code = u.return_code })
      else (record s { state = u.state }, none))
advance (some killed) s u =
    assert_state (is_state s.state (some forked) || is_state s.state (some running)) s (
      copy_fields (is_some u.stop_time && is_some u.return_code) s
        (record s { state = u.state; stop_time = u.stop_time; return_code = u.return_code }))
advance (some lost) s u =
    assert_state (is_state s.state (some forked) || is_state s.state (some running)) s
      (record s { state = u.state }, none)
advance none s u = (s, some error_recovering_state)

unfoldable pub update_process_state : ProcessStatus → ProcessStatus → Updated
update_process_state s u =
    if is_some u.seq
    then advance u.state (record s { seq = u.seq }) u
    else (s, some assertion_error)

-- Comparing a missing number raises.
unfoldable pub would_update : RunnerState → RunnerCkpt → Result Error Bool
would_update state ckpt = elim ckpt.process_status [
  | none ↦ ok false
  | some u ↦ elim (get state.processes u.process) [
    | none ↦ ok true
    | some runs ↦ elim runs.current.seq [
      | none ↦ err type_error
      | some high ↦ elim u.seq [ none ↦ err type_error | some new ↦ ok (ltb_ℤ high new) ]
    ]
  ]
]

abbrev pub Dispatched : Type 0
Dispatched = RunnerState × List HandlerCall × Option Error

-- `ProcessStatus(seq=...)`
abbrev pub fresh : Option ℤ → ProcessStatus
fresh seq = record {
  seq = seq;
  process = none;
  state = none;
  coordinator_pid = none;
  fork_time = none;
  start_time = none;
  pid = none;
  stop_time = none;
  return_code = none;
}

unfoldable pub dispatch_header : Dispatcher → RunnerState → RunnerHeader → Dispatched
dispatch_header d s header =
    if is_some s.header
    then (s, [], some error_recovering_state)
    else (record s { header = some header }, run_header_dispatch d header, none)

unfoldable pub dispatch_task : Dispatcher → RunnerState → TaskStatus → Bool → Dispatched
dispatch_task d s status truncate =
    let (calls, raised) = run_task_dispatch d status.state status in
    (
      record s { statuses = if not truncate then s.statuses ++ status ∷ [] else status ∷ [] },
      calls,
      raised,
    )

-- What `update.seq != current_run.seq + 1` says; `None + 1` raises.
pub data Order : Type 0 where
  in_order out_of_order unordered : Order

unfoldable pub seq_order : Option Runs → Option ℤ → Order
seq_order none seq = in_order
seq_order (some runs) seq = elim runs.current.seq [
  | none ↦ unordered
  | some high ↦ elim seq [
    | none ↦ out_of_order
    | some new ↦ if beq_ℤ new (high +ℤ pos 1) then in_order else out_of_order
  ]
]

abbrev pub may_restart : Option Runs → Bool
may_restart none = true
may_restart (some runs) = is_terminal runs.current

-- The special case for WAITING: a new run, whose `seq` is that of the run before it, or -1.
unfoldable pub new_run : Option Runs → Bool → Runs
new_run none truncate = record { earlier = []; current = fresh (some (negsuc 0)) }
new_run (some runs) truncate = record {
  earlier = if not truncate then runs.earlier ++ runs.current ∷ [] else [];
  current = fresh runs.current.seq;
}

-- Runs the state machine on the last run of `name`, which `runs` is.
unfoldable pub run_machine :
    Dispatcher → RunnerState → Option Name → Option Runs → ProcessStatus → Dispatched
run_machine d s name none u = (s, [], some error_recovering_state)
run_machine d s name (some runs) u =
    let (current, raised) = update_process_state runs.current u in
    (
      record s { processes = put s.processes name (record runs { current = current }) },
      elim raised [
        | none ↦ elim u.state [ none ↦ [] | some state ↦ run_process_dispatch d state u ]
        | some _ ↦ []
      ],
      raised,
    )

unfoldable pub dispatch_process :
    Dispatcher → RunnerState → ProcessStatus → Bool → Bool → Dispatched
dispatch_process d s u recovery truncate =
    let found = get s.processes u.process in
    elim (seq_order found u.seq) [
      | unordered ↦ (s, [], some type_error)
      | out_of_order ↦ if recovery then (s, [], none) else (s, [], some invalid_sequence_number)
      | in_order ↦
          if is_state u.state (some waiting)
          then if may_restart found
            then (let runs = new_run found truncate in
                run_machine d (record s { processes = put s.processes u.process runs }) u.process
                  (some runs) u)
            else (s, [], some assertion_error)
          else run_machine d s u.process found u
    ]

-- `dispatch`
unfoldable pub dispatch : Dispatcher → RunnerState → RunnerCkpt → Bool → Bool → Dispatched
dispatch d s ckpt recovery truncate = elim ckpt.runner_header [
  | some header ↦ dispatch_header d s header
  | none ↦ elim ckpt.task_status [
    | some status ↦ dispatch_task d s status truncate
    | none ↦ elim ckpt.process_status [
      | some u ↦ dispatch_process d s u recovery truncate
      | none ↦ (s, [], some error_recovering_state)
    ]
  ]
]

abbrev pub no_handlers : Dispatcher
no_handlers = record { task_handlers = []; process_handlers = []; universal_handlers = [] }

abbrev pub empty : RunnerState
empty = record { header = none; statuses = []; processes = [] }

-- The exceptions of `CheckpointDispatcher.Error`, which `from_file` catches.
abbrev pub is_dispatcher_error : Error → Bool
is_dispatcher_error error_recovering_state = true
is_dispatcher_error invalid_sequence_number = true
is_dispatcher_error invalid_handler = true
is_dispatcher_error _ = false

-- The loop of `from_file`: the records that the file yields, and whether reading them ends in an
-- error of the reader, which `iter_updates` turns into ErrorRecoveringState.
unfoldable pub rebuild : RunnerState → List RunnerCkpt → Bool → Bool → RunnerState × Option Error
rebuild s [] broken truncate = (s, if broken then some error_recovering_state else none)
rebuild s (u ∷ us) broken truncate =
    let (s', _, raised) = dispatch no_handlers s u false truncate in
    let rest = rebuild s' us broken truncate in elim raised [ none ↦ rest | some e ↦ (s', some e) ]

abbrev pub hydrate : RunnerState × Option Error → Result Error (Option RunnerState)
hydrate (s, none) = ok (some s)
hydrate (s, some e) = if is_dispatcher_error e then ok none else err e

unfoldable pub from_file : List RunnerCkpt → Bool → Bool → Result Error (Option RunnerState)
from_file updates broken truncate = hydrate (rebuild empty updates broken truncate)
