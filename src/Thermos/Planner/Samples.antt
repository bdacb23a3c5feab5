-- ===== src/Thermos/Planner/Samples.antt =====
-- A chain of three processes on which the theorems of the planner are run, with tests.
use aurora_client.Base.{
  ℕ, ◌≡◌, ◌≢◌, refl, true, false, some, List, [], ◌∷◌, arith, string_eq, ◌==◌, ◌⊎◌, inl, inr,
  if◌then◌else◌, is_nil, ok, err, ==_iff,
}
use aurora_client.Base.Sets.{member, add, minus, discard, is_subset, to_set}
use aurora_client.Base.Dicts.{get, map_values, tabulate}
use aurora_client.Thermos.Planner.{
  Name, Dependencies, assertion_error, Planner, filter_runnable, filter_dependencies, rounds,
  satisfiable, start, init, runnable, set_running, set_failed, runs, fails, apply,
}
use aurora_client.Thermos.Planner.Runnable.{deps_of}
use aurora_client.Thermos.Planner.Schedule.{IsRanked, satisfiable-IsRanked, IsRanked-satisfiable}
use aurora_client.Thermos.Planner.Invariant.{IsValid, apply-IsValid, init-IsValid}
use aurora_client.Thermos.Planner.Progress.{Blocked, stuck-Blocked}

abbrev pub abc : List Name
abc = "a" ∷ "b" ∷ "c" ∷ []

abbrev pub chain : Dependencies
chain = ("b", "a" ∷ []) ∷ ("c", "b" ∷ []) ∷ []

abbrev loop : Dependencies
loop = ("a", "c" ∷ []) ∷ ("b", "a" ∷ []) ∷ ("c", "b" ∷ []) ∷ []

abbrev pub fresh_chain : Planner
fresh_chain = record {
  processes = abc;
  dependencies = ("a", []) ∷ ("b", "a" ∷ []) ∷ ("c", "b" ∷ []) ∷ [];
  running = [];
  finished = [];
  failed = [];
}

init-chain : init abc chain ≡ ok fresh_chain
unfolding init start satisfiable rounds filter_runnable filter_dependencies minus map_values get
    to_set tabulate member add
init-chain = refl

satisfiable-chain : satisfiable abc chain ≡ some true
unfolding satisfiable rounds filter_runnable filter_dependencies minus map_values get member
satisfiable-chain = refl

satisfiable-loop : satisfiable abc loop ≡ some false
unfolding satisfiable rounds filter_runnable filter_dependencies minus map_values get member
satisfiable-loop = refl

-- A process whose dependencies have not finished cannot be started.
runs_too_early : apply fresh_chain (runs "b") ≡ err assertion_error
unfolding apply set_running member runnable filter_runnable filter_dependencies minus map_values get
    add
runs_too_early = refl

abbrev pub rank : Name → ℕ
rank k = if k == "a" then 0 else if k == "b" then 1 else 2

arrow :
    (k d : Name)
    → member d (deps_of chain k) ≡ true
    → ((k ≡ "b") × (d ≡ "a")) ⊎ ((k ≡ "c") × (d ≡ "b"))
unfolding member deps_of get
arrow k d n = ground (arith, ==_iff "b" k, ==_iff "c" k, ==_iff "a" d, ==_iff "b" d)

chain-IsRanked : IsRanked rank abc chain
unfolding member deps_of get
chain-IsRanked = record {
  known = λ k d m n. ground arith;
  lower = λ k d m n. elim (arrow k d n) [
    | inl (e, f) ↦ rw (e, f) (omega arith)
    | inr (e, f) ↦ rw (e, f) (omega arith)
  ];
}

satisfiable-IsRanked_example : (r : Name → ℕ) × IsRanked r abc chain
satisfiable-IsRanked_example = satisfiable-IsRanked abc chain satisfiable-chain

IsRanked-satisfiable_example : satisfiable abc chain ≡ some true
IsRanked-satisfiable_example = IsRanked-satisfiable abc chain rank chain-IsRanked

fresh-IsValid : IsValid fresh_chain
fresh-IsValid = init-IsValid abc chain init-chain

abbrev pub a_runs : Planner
a_runs = record fresh_chain { running = "a" ∷ [] }

start_a : apply fresh_chain (runs "a") ≡ ok a_runs
unfolding apply set_running member runnable filter_runnable filter_dependencies minus map_values get
    add
start_a = refl

pub a_runs-IsValid : IsValid a_runs
a_runs-IsValid = apply-IsValid fresh_chain (runs "a") fresh-IsValid start_a

apply-IsValid_example : IsValid a_runs
apply-IsValid_example = apply-IsValid fresh_chain (runs "a") fresh-IsValid start_a

abbrev name_a : Name
name_a = "a"

a_apart_b : name_a ≢ "b"
a_apart_b e = ground (arith, (==_iff name_a "b").1 e)

abbrev a_failed : Planner
a_failed = record fresh_chain { failed = "a" ∷ [] }

fail_a : apply a_runs (fails "a") ≡ ok a_failed
unfolding apply set_failed member discard add
fail_a = refl

nothing_left : is_nil (runnable a_failed) ≡ true
unfolding runnable filter_runnable filter_dependencies minus map_values get member
nothing_left = refl

c_known : member "c" abc ≡ true
unfolding member
c_known = refl

stuck-Blocked_example : (member "c" a_failed.finished ≡ true) ⊎ Blocked a_failed "c"
stuck-Blocked_example =
    stuck-Blocked a_failed (apply-IsValid a_runs (fails "a") a_runs-IsValid fail_a) refl
      nothing_left "c" c_known

abbrev all_done : Planner
all_done = record fresh_chain { finished = abc }

all_done-IsValid : IsValid all_done
unfolding member is_subset deps_of get
all_done-IsValid = record {
  known = λ k h. ground arith;
  run_fin = λ k h. ground arith;
  run_fail = λ k h. ground arith;
  fin_fail = λ k h. ground arith;
  ordered = λ k h. ground arith;
  planned = fresh-IsValid.planned;
}

none_runnable : is_nil (runnable all_done) ≡ true
unfolding runnable filter_runnable filter_dependencies minus map_values get member
none_runnable = refl
