-- ===== src/Thermos/TaskPlanner/Samples.antt =====
-- A task of three ordered processes on which the theorems of the task planner are run, with tests.
use aurora_client.Base.{◌≡◌, refl, true, false, none, some, List, [], ◌∷◌, string_eq, ok}
use aurora_client.Base.Int.{pos, ◌+ℤ◌, ◌-ℤ◌, ◌≤ℤ◌}
use aurora_client.Base.Sets.{member, add, minus, discard, is_subset, is_disjoint, to_set}
use aurora_client.Base.Dicts.{Dict, get, map_values, tabulate, put}
use aurora_client.Thermos.Planner
use aurora_client.Thermos.Planner.{
  Name, Dependencies, Error, filter_runnable, filter_dependencies, rounds, satisfiable, start,
  runnable,
}
use aurora_client.Thermos.Planner.Phases.{phase, waiting, running, finished}
use aurora_client.Thermos.Planner.Samples.{abc, fresh_chain, a_runs, a_runs-IsValid}
use aurora_client.Thermos.TaskPlanner.{
  set_running, Process, Task, TaskAttributes, TaskPlanner, put_all, add_pair, add_order,
  add_constraint, add_constraints, extract_dependencies, put_attributes, init, get_wait, is_ready,
  filter_ok, runnable_at, has_reached_run_limit, add_failure, failure_transition, add_success, lost,
}
use aurora_client.Thermos.TaskPlanner.Outcome.{EndsIn, report_outcomes}
use aurora_client.Thermos.TaskPlanner.Throttle.{failure, report, report_throttles}
use aurora_client.Thermos.TaskPlanner.Sound.{IsSound, launches, step, step-IsSound}
use aurora_client.Thermos.TaskPlanner.Start.{init-IsSound}

abbrev process_a : Process
process_a = record {
  name = "a";
  daemon = false;
  ephemeral = false;
  max_failures = 2;
  min_duration = pos 5;
}

abbrev process_b : Process
process_b = record {
  name = "b";
  daemon = false;
  ephemeral = false;
  max_failures = 1;
  min_duration = pos 5;
}

-- an ephemeral daemon that may fail as often as it likes
abbrev process_c : Process
process_c = record {
  name = "c";
  daemon = true;
  ephemeral = true;
  max_failures = 0;
  min_duration = pos 5;
}

abbrev task : Task
task = record {
  processes = process_a ∷ process_b ∷ process_c ∷ [];
  constraints = ("a" ∷ "b" ∷ "c" ∷ []) ∷ [];
}

abbrev attributes : Dict Name TaskAttributes
attributes = put_attributes [] task.processes

abbrev pub fresh_task : TaskPlanner
fresh_task = record {
  planner = fresh_chain;
  last_terminal = [];
  failures = [];
  successes = [];
  losses = [];
  attributes = attributes;
  ephemerals = "c" ∷ [];
}

abbrev pub a_attributes : TaskAttributes
a_attributes = record {
  min_duration = pos 5;
  is_daemon = false;
  max_failures = 2;
  is_ephemeral = false;
}

abbrev dependencies : Dependencies
dependencies = ("b", "a" ∷ []) ∷ ("c", "b" ∷ []) ∷ []

extract_task : extract_dependencies task none ≡ ok (abc, dependencies)
unfolding extract_dependencies put_all add_constraints add_constraint add_order add_pair is_subset
    is_disjoint member add put get to_set
extract_task = refl

init-task : init task none ≡ ok fresh_task
unfolding init extract_dependencies put_all add_constraints add_constraint add_order add_pair
    is_subset is_disjoint member add put get to_set put_attributes Planner.init start satisfiable
    rounds filter_runnable filter_dependencies minus map_values tabulate
init-task = refl

pub fresh-IsSound : IsSound fresh_task
fresh-IsSound = init-IsSound task none fresh_task init-task

start_ok : (step fresh_task (launches "a")).1 ≡ none
unfolding step set_running Planner.set_running member runnable filter_runnable filter_dependencies
    minus map_values get add
start_ok = refl

step-IsSound_example : IsSound (step fresh_task (launches "a")).0
step-IsSound_example = step-IsSound fresh_task (launches "a") fresh-IsSound start_ok

abbrev running_task : TaskPlanner
running_task = record fresh_task { planner = a_runs }

a_is_running : phase a_runs "a" ≡ running
unfolding phase member
a_is_running = refl

pub a_known : get attributes "a" ≡ some a_attributes
unfolding put_attributes put get
a_known = refl

-- The first failure of two sends the process back to wait.
report_outcomes_example :
    EndsIn (add_failure running_task "a" (pos 7)) "a" waiting
    × EndsIn (add_success running_task "a" (pos 7)) "a" finished
    × EndsIn (lost running_task "a" (pos 7)) "a" waiting
unfolding get
report_outcomes_example =
    report_outcomes running_task a_runs-IsValid "a" a_is_running a_attributes a_known (pos 7)

abbrev only_a : List Name
only_a = "a" ∷ []

-- The failure at time 7 and a `min_duration` of 5 keep the process back until 12.
ready_again : runnable_at (report failure running_task "a" (pos 7)).0 (pos 12) ≡ ok only_a
unfolding report add_failure failure_transition has_reached_run_limit runnable_at filter_ok is_ready
    get_wait Planner.reset member discard put get runnable filter_runnable filter_dependencies minus
    map_values put_attributes ◌-ℤ◌
ready_again = refl

a_only : member "a" only_a ≡ true
unfolding member
a_only = refl

report_throttles_example : pos 5 +ℤ pos 7 ≤ℤ pos 12
report_throttles_example =
    report_throttles failure running_task "a" a_attributes (pos 7) (pos 12) only_a a_known
      ready_again a_only
