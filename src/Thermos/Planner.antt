-- ===== src/Thermos/Planner.antt =====
-- `Planner` of src/main/python/apache/thermos/common/planner.py. A process is its name; Python's
-- sets and dicts are those of Base. An `assert` that fails leaves the planner as it was.
pub mod Runnable
pub mod Schedule
pub mod Invariant
pub mod Phases
pub mod Progress
pub mod Samples
use aurora_client.Base.{
  ℕ, zero, suc, String, Bool, true, false, not, ◌&&◌, ◌||◌, Option, none, some, List, [], ◌∷◌,
  if◌then◌else◌, keep_if, is_nil, string_eq, length, Result, ok, err,
}
use aurora_client.Base.Sets.{member, add, minus, discard, union, set_eq, to_set}
use aurora_client.Base.Dicts.{Dict, get, map_values, tabulate, get_default}

abbrev pub Name : Type 0
Name = String

abbrev pub Dependencies : Type 0
Dependencies = Dict Name (List Name)

pub data Error : Type 0 where
  invalid_schedule assertion_error key_error : Error

-- `not dependencies.get(process)`: no entry, or an empty one.
abbrev pub has_none : Option (List Name) → Bool
has_none none = true
has_none (some s) = is_nil s

unfoldable pub filter_runnable : List Name → Dependencies → List Name
filter_runnable processes dependencies =
    keep_if (λ process. has_none (get dependencies process)) processes

unfoldable pub filter_dependencies : Dependencies → List Name → Dependencies
filter_dependencies dependencies given =
    map_values (λ process_set. minus process_set given) dependencies

-- The `while scheduling` loop. `none` means that the fuel ran out.
unfoldable pub rounds : ℕ → List Name → Dependencies → Option Bool
rounds zero processes dependencies = none
rounds (suc fuel) processes dependencies =
    let runnables = filter_runnable processes dependencies in
    let rest =
      rounds fuel (minus processes runnables) (filter_dependencies dependencies runnables) in
    if is_nil runnables then some (is_nil processes) else rest

-- Every round that goes on takes a process away.
unfoldable pub satisfiable : List Name → Dependencies → Option Bool
satisfiable processes dependencies = rounds (suc (length processes)) processes dependencies

pub record Planner : Type 0 where
  pub processes : List Name
  pub dependencies : Dependencies
  pub running : List Name
  pub finished : List Name
  pub failed : List Name

unfoldable pub start : List Name → Dependencies → Planner
start processes dependencies =
    let names = to_set processes in
    record {
      processes = names;
      dependencies = tabulate (λ process. to_set (get_default dependencies process [])) names;
      running = [];
      finished = [];
      failed = [];
    }

abbrev pub accept : Planner → Option Bool → Result Error Planner
accept p (some true) = ok p
accept p _ = err invalid_schedule

-- `__init__`
unfoldable pub init : List Name → Dependencies → Result Error Planner
init processes dependencies =
    let p = start processes dependencies in accept p (satisfiable p.processes p.dependencies)

unfoldable pub runnable : Planner → List Name
runnable p =
    filter_runnable (minus (minus (minus p.processes p.running) p.finished) p.failed)
      (filter_dependencies p.dependencies p.finished)

abbrev pub assert_that : Bool → Planner → Result Error Planner
assert_that true p = ok p
assert_that false p = err assertion_error

unfoldable pub reset : Planner → Name → Result Error Planner
reset p process =
    assert_that
      (member process p.running && not (member process p.finished) && not (member process p.failed))
      (record p { running = discard process p.running })

unfoldable pub set_running : Planner → Name → Result Error Planner
set_running p process =
    assert_that
      (not (member process p.failed)
        && not (member process p.finished)
        && (member process p.running || member process (runnable p)))
      (record p { running = add process p.running })

unfoldable pub set_finished : Planner → Name → Result Error Planner
set_finished p process =
    assert_that (member process p.running && not (member process p.failed))
      (record p { running = discard process p.running; finished = add process p.finished })

unfoldable pub set_failed : Planner → Name → Result Error Planner
set_failed p process =
    assert_that (member process p.running && not (member process p.finished))
      (record p { running = discard process p.running; failed = add process p.failed })

unfoldable pub is_complete : Planner → Bool
is_complete p = set_eq (union p.finished p.failed) p.processes

-- The operations that change a planner, and a history of them. A call that raises is the last.
pub data Call : Type 0 where
  resets runs finishes fails : Name → Call

unfoldable pub apply : Planner → Call → Result Error Planner
apply p (resets k) = reset p k
apply p (runs k) = set_running p k
apply p (finishes k) = set_finished p k
apply p (fails k) = set_failed p k
