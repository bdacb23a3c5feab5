-- ===== src/Thermos/Planner/Invariant.antt =====
-- What every operation of `Planner` keeps, and which moves a process can make.
use aurora_client.Base.{◌≡◌, Bool, true, false, ◌||◌, some, List, arith, string_eq, ok, ==_iff}
use aurora_client.Base.Sets.{member, member-add, member-discard, is_subset, is_subset-add}
use aurora_client.Thermos.Planner.{
  Name, Dependencies, Planner, Call, resets, runs, finishes, fails, start, init, reset, set_running,
  set_finished, set_failed, apply, satisfiable,
}
use aurora_client.Thermos.Planner.Runnable.{deps_of, member-runnable}

-- The process has left the waiting state.
abbrev pub begun : Planner → Name → Bool
begun p k = member k p.running || member k p.finished || member k p.failed

pub record IsValid (p : Planner) : Type 0 where
  -- only processes of the task are in the three sets
  pub known : (k : Name) → begun p k ≡ true → member k p.processes ≡ true
  -- the three sets are disjoint
  pub run_fin : (k : Name) → member k p.running ≡ true → member k p.finished ≡ false
  pub run_fail : (k : Name) → member k p.running ≡ true → member k p.failed ≡ false
  pub fin_fail : (k : Name) → member k p.finished ≡ true → member k p.failed ≡ false
  -- nothing begins before all its dependencies have finished
  pub ordered :
      (k : Name) → begun p k ≡ true → is_subset (deps_of p.dependencies k) p.finished ≡ true
  -- the schedule was accepted
  pub planned : satisfiable p.processes p.dependencies ≡ some true

module _ (p : Planner) (k : Name) {q : Planner} (v : IsValid p) where
  reset-IsValid : reset p k ≡ ok q → IsValid q
  unfolding reset
  reset-IsValid e = record {
    known = λ j h. ground (arith, member-discard k p.running j, v.known j);
    run_fin = λ j h. ground (arith, member-discard k p.running j, v.run_fin j);
    run_fail = λ j h. ground (arith, member-discard k p.running j, v.run_fail j);
    fin_fail = λ j h. ground (arith, v.fin_fail j);
    ordered = λ j h. ground (arith, member-discard k p.running j, v.ordered j);
    planned = ground (arith, v.planned);
  }

  set_running-IsValid : set_running p k ≡ ok q → IsValid q
  unfolding set_running
  set_running-IsValid e = record {
    known =
        λ j h. ground (arith, member-add k p.running j, ==_iff k j, member-runnable p k, v.known j);
    run_fin = λ j h.
        ground (arith, member-add k p.running j, ==_iff k j, member-runnable p k, v.run_fin j);
    run_fail = λ j h.
        ground (arith, member-add k p.running j, ==_iff k j, member-runnable p k, v.run_fail j);
    fin_fail = λ j h. ground (arith, v.fin_fail j);
    ordered = λ j h.
        ground (arith, member-add k p.running j, ==_iff k j, member-runnable p k, v.ordered j);
    planned = ground (arith, v.planned);
  }

  set_finished-IsValid : set_finished p k ≡ ok q → IsValid q
  unfolding set_finished
  set_finished-IsValid e = record {
    known = λ j h.
        ground
          (arith, member-discard k p.running j, member-add k p.finished j, ==_iff k j, v.known j);
    run_fin = λ j h. ground (
      arith,
      member-discard k p.running j,
      member-add k p.finished j,
      ==_iff k j,
      ==_iff j k,
      v.run_fin j,
    );
    run_fail = λ j h. ground (arith, member-discard k p.running j, v.run_fail j);
    fin_fail =
        λ j h. ground (arith, member-add k p.finished j, ==_iff k j, v.fin_fail j, v.run_fail j);
    ordered = λ j h. ground (
      arith,
      member-discard k p.running j,
      member-add k p.finished j,
      ==_iff k j,
      v.ordered j,
      is_subset-add (deps_of p.dependencies j) p.finished k,
    );
    planned = ground (arith, v.planned);
  }

  set_failed-IsValid : set_failed p k ≡ ok q → IsValid q
  unfolding set_failed
  set_failed-IsValid e = record {
    known = λ j h.
        ground
          (arith, member-discard k p.running j, member-add k p.failed j, ==_iff k j, v.known j);
    run_fin = λ j h. ground (arith, member-discard k p.running j, v.run_fin j);
    run_fail = λ j h. ground (
      arith,
      member-discard k p.running j,
      member-add k p.failed j,
      ==_iff k j,
      ==_iff j k,
      v.run_fail j,
    );
    fin_fail =
        λ j h. ground (arith, member-add k p.failed j, ==_iff k j, v.fin_fail j, v.run_fin j);
    ordered = λ j h.
        ground
          (arith, member-discard k p.running j, member-add k p.failed j, ==_iff k j, v.ordered j);
    planned = ground (arith, v.planned);
  }

-- Every operation that is accepted keeps the planner valid.
pub apply-IsValid :
    (p : Planner) (c : Call) {q : Planner} → IsValid p → apply p c ≡ ok q → IsValid q
unfolding apply
apply-IsValid p (resets k) v e = reset-IsValid p k v e
apply-IsValid p (runs k) v e = set_running-IsValid p k v e
apply-IsValid p (finishes k) v e = set_finished-IsValid p k v e
apply-IsValid p (fails k) v e = set_failed-IsValid p k v e

-- A planner that the constructor accepts is valid.
pub init-IsValid :
    (ps : List Name) (ds : Dependencies) {p : Planner} → init ps ds ≡ ok p → IsValid p
unfolding init start member
init-IsValid ps ds e = record {
  known = λ j h. ground arith;
  run_fin = λ j h. ground arith;
  run_fail = λ j h. ground arith;
  fin_fail = λ j h. ground arith;
  ordered = λ j h. ground arith;
  planned = ground arith;
}
