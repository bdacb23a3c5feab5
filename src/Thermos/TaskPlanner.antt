-- ===== src/Thermos/TaskPlanner.antt =====
-- `TaskPlanner` of src/main/python/apache/thermos/common/planner.py. A method that raises after
-- it has written returns the written state beside the error. Times are integers of one unit, and
-- a method's `timestamp` is its argument, or the reading of the clock where none is given.
pub mod Extract
pub mod Outcome
pub mod Throttle
pub mod Sound
pub mod Start
pub mod Samples
use aurora_client.Base.{
  ℕ, suc, ◌+◌, ◌-◌, ◌*◌, ◌^◌, Bool, true, false, not, ◌&&◌, ◌||◌, Option, none, some, List, [], ◌∷◌,
  map, if◌then◌else◌, keep_if, is_nil, string_eq, Result, ok, err, ◌>>=◌, leb, ltb, nat_beq,
}
use aurora_client.Base.Int.{ℤ, pos, ◌-ℤ◌, leb_ℤ}
use aurora_client.Base.Sets.{member, add, union, is_subset, is_disjoint, set_eq, to_set}
use aurora_client.Base.Dicts.{Dict, get, put, keys, get_default}
use aurora_client.Thermos.Planner
use aurora_client.Thermos.Planner.{
  Name, Dependencies, Planner, Error, invalid_schedule, key_error, runnable,
}

-- What the planner reads of a process and of a task of the Thermos schema.
pub record Process : Type 0 where
  pub name : Name
  pub daemon : Bool
  pub ephemeral : Bool
  pub max_failures : ℕ
  pub min_duration : ℤ

pub record Task : Type 0 where
  pub processes : List Process
  -- the `order` of each constraint
  pub constraints : List (List Name)

pub record TaskAttributes : Type 0 where
  pub min_duration : ℤ
  pub is_daemon : Bool
  pub max_failures : ℕ
  pub is_ephemeral : Bool

-- `filter(process_filter, task.processes())`
abbrev pub selected : Option (Process → Bool) → Task → List Process
selected none task = task.processes
selected (some keep) task = keep_if keep task.processes

-- `dict((process.name().get(), process) for ...)`: the last process of a name stays.
unfoldable pub put_all : Dict Name Process → List Process → Dict Name Process
put_all process_map [] = process_map
put_all process_map (process ∷ rest) = put_all (put process_map process.name process) rest

abbrev or_raise : {A : Type 0} → Option A → Error → Result Error A
or_raise none e = err e
or_raise (some a) e = ok a

abbrev check : Bool → Result Error Bool
check true = ok true
check false = err invalid_schedule

-- The body of the inner loop: `pnk` comes directly after `pnk1` in an order.
unfoldable pub add_pair : Dict Name Process → Dependencies → Name → Name → Result Error Dependencies
add_pair process_map dependencies pnk1 pnk = do
  before ← or_raise (get process_map pnk1) key_error
  _ ← check (not before.daemon)
  after ← or_raise (get process_map pnk) key_error
  _ ← check (not (not after.ephemeral && before.ephemeral))
  ok (put dependencies pnk (add pnk1 (get_default dependencies pnk [])))

unfoldable pub add_order : Dict Name Process → Dependencies → List Name → Result Error Dependencies
add_order process_map dependencies [] = ok dependencies
add_order process_map dependencies (a ∷ []) = ok dependencies
add_order process_map dependencies (a ∷ b ∷ rest) =
    add_pair process_map dependencies a b >>= λ more. add_order process_map more (b ∷ rest)

abbrev pub same : Bool → Bool → Bool
same true b = b
same false b = not b

-- Either all names of a constraint are selected or none is.
unfoldable pub add_constraint :
    Dict Name Process → Dependencies → List Name → Result Error Dependencies
add_constraint process_map dependencies process_names =
    let processes = keys process_map in
    if same (is_subset process_names processes) (is_disjoint process_names processes)
    then err invalid_schedule
    else if not (is_subset process_names processes)
    then ok dependencies
    else add_order process_map dependencies process_names

unfoldable pub add_constraints :
    Dict Name Process → Dependencies → List (List Name) → Result Error Dependencies
add_constraints process_map dependencies [] = ok dependencies
add_constraints process_map dependencies (c ∷ cs) =
    add_constraint process_map dependencies c >>= λ more. add_constraints process_map more cs

unfoldable pub extract_dependencies :
    Task → Option (Process → Bool) → Result Error (List Name × Dependencies)
extract_dependencies task process_filter =
    let process_map = put_all [] (selected process_filter task) in
    add_constraints process_map [] task.constraints >>= λ dependencies.
    ok (to_set (keys process_map), dependencies)

pub record TaskPlanner : Type 0 where
  pub planner : Planner
  pub last_terminal : Dict Name ℤ
  pub failures : Dict Name ℕ
  pub successes : Dict Name ℕ
  pub losses : Dict Name ℕ
  pub attributes : Dict Name TaskAttributes
  pub ephemerals : List Name

abbrev pub attributes_of : Process → TaskAttributes
attributes_of process = record {
  min_duration = process.min_duration;
  is_daemon = process.daemon;
  max_failures = process.max_failures;
  is_ephemeral = process.ephemeral;
}

unfoldable pub put_attributes : Dict Name TaskAttributes → List Process → Dict Name TaskAttributes
put_attributes attributes [] = attributes
put_attributes attributes (process ∷ rest) =
    put_attributes (put attributes process.name (attributes_of process)) rest

-- `__init__`
unfoldable pub init : Task → Option (Process → Bool) → Result Error TaskPlanner
init task process_filter = extract_dependencies task process_filter >>= λ extracted.
    Planner.init extracted.0 extracted.1 >>= λ planner. ok (record {
      planner = planner;
      last_terminal = [];
      failures = [];
      successes = [];
      losses = [];
      attributes = put_attributes [] (selected process_filter task);
      ephemerals =
          to_set (map (λ p. p.name) (keep_if (λ p. p.ephemeral) (selected process_filter task)));
    })

unfoldable pub get_wait : TaskPlanner → Name → ℤ → Result Error ℤ
get_wait t process now = elim (get t.last_terminal process) [
  | none ↦ ok (pos 0)
  | some last ↦
      or_raise (get t.attributes process) key_error >>= λ a. ok (a.min_duration -ℤ (now -ℤ last))
]

unfoldable pub is_ready : TaskPlanner → ℤ → Name → Result Error Bool
is_ready t timestamp process = get_wait t process timestamp >>= λ wait. ok (leb_ℤ wait (pos 0))

unfoldable pub is_waiting : TaskPlanner → ℤ → Name → Result Error Bool
is_waiting t timestamp process = is_ready t timestamp process >>= λ ready. ok (not ready)

-- `set(filter(test, names))` with a test that may raise.
unfoldable pub filter_ok : (Name → Result Error Bool) → List Name → Result Error (List Name)
filter_ok test [] = ok []
filter_ok test (k ∷ ks) =
    test k >>= λ keep. filter_ok test ks >>= λ rest. ok (if keep then k ∷ rest else rest)

unfoldable pub runnable_at : TaskPlanner → ℤ → Result Error (List Name)
runnable_at t timestamp = filter_ok (is_ready t timestamp) (runnable t.planner)

unfoldable pub waiting_at : TaskPlanner → ℤ → Result Error (List Name)
waiting_at t timestamp = filter_ok (is_waiting t timestamp) (runnable t.planner)

unfoldable pub get_waits : TaskPlanner → ℤ → List Name → Result Error (List ℤ)
get_waits t timestamp [] = ok []
get_waits t timestamp (k ∷ ks) =
    get_wait t k timestamp >>= λ wait. get_waits t timestamp ks >>= λ rest. ok (wait ∷ rest)

abbrev pub min_ℤ : ℤ → ℤ → ℤ
min_ℤ a b = if leb_ℤ a b then a else b

-- `min(waits) if waits else self.INFINITY`; the largest double is a whole number.
abbrev pub infinity : ℤ
infinity = pos ((2 ^ 53 - 1) * 2 ^ 971)

abbrev pub least : List ℤ → ℤ
least [] = infinity
least (w ∷ []) = w
least (w ∷ v ∷ ws) = min_ℤ w (least (v ∷ ws))

unfoldable pub min_wait : TaskPlanner → ℤ → Result Error ℤ
min_wait t timestamp = do
  now_runnable ← runnable_at t timestamp
  if not (is_nil now_runnable) then ok (pos 0) else do
    waiters ← waiting_at t timestamp
    waits ← get_waits t timestamp waiters
    ok (least waits)

-- A step of the inner planner; the counters that were written stay written if it raises.
abbrev pub Outcome : Type 0
Outcome = TaskPlanner × Option Error

abbrev pub in_planner : TaskPlanner → Result Error Planner → Outcome
in_planner t (ok p) = (record t { planner = p }, none)
in_planner t (err e) = (t, some e)

unfoldable pub set_running : TaskPlanner → Name → Outcome
set_running t process = in_planner t (Planner.set_running t.planner process)

unfoldable pub set_failed : TaskPlanner → Name → Outcome
set_failed t process = in_planner t (Planner.set_failed t.planner process)

-- a `defaultdict(int)`
abbrev pub count : Dict Name ℕ → Name → ℕ
count d k = get_default d k 0

abbrev pub bump : Dict Name ℕ → Name → Dict Name ℕ
bump d k = put d k (count d k + 1)

abbrev pub total_run_limit : ℕ
total_run_limit = 2 ^ 63 - 1

unfoldable pub has_reached_run_limit : TaskPlanner → Name → Bool
has_reached_run_limit t process =
    leb total_run_limit
      (count t.successes process + count t.failures process + count t.losses process)

abbrev with_attributes : TaskPlanner → Name → (TaskAttributes → Result Error Planner) → Outcome
with_attributes t process f = in_planner t (or_raise (get t.attributes process) key_error >>= f)

unfoldable pub failure_transition : TaskPlanner → Name → Outcome
failure_transition t process =
    if has_reached_run_limit t process
    then in_planner t (Planner.set_failed t.planner process)
    else with_attributes t process λ a.
      if nat_beq a.max_failures 0 || ltb (count t.failures process) a.max_failures
      then Planner.reset t.planner process
      else if a.is_ephemeral
      then Planner.set_finished t.planner process
      else Planner.set_failed t.planner process

unfoldable pub add_failure : TaskPlanner → Name → ℤ → Outcome
add_failure t process timestamp =
    failure_transition
      (record t {
        last_terminal = put t.last_terminal process timestamp;
        failures = bump t.failures process;
      })
      process

unfoldable pub success_transition : TaskPlanner → Name → Outcome
success_transition t process =
    if has_reached_run_limit t process
    then in_planner t (Planner.set_failed t.planner process)
    else with_attributes t process λ a.
      if not a.is_daemon
      then Planner.set_finished t.planner process
      else Planner.reset t.planner process

unfoldable pub add_success : TaskPlanner → Name → ℤ → Outcome
add_success t process timestamp =
    success_transition
      (record t {
        last_terminal = put t.last_terminal process timestamp;
        successes = bump t.successes process;
      })
      process

unfoldable pub lost_transition : TaskPlanner → Name → Outcome
lost_transition t process = in_planner t (
    if has_reached_run_limit t process
    then Planner.set_failed t.planner process
    else Planner.reset t.planner process)

unfoldable pub lost : TaskPlanner → Name → ℤ → Outcome
lost t process timestamp =
    lost_transition
      (record t {
        last_terminal = put t.last_terminal process timestamp;
        losses = bump t.losses process;
      })
      process

-- All processes but the ephemeral ones have finished or failed.
unfoldable pub is_complete : TaskPlanner → Bool
is_complete t =
    set_eq t.planner.processes (union (union t.planner.finished t.planner.failed) t.ephemerals)
