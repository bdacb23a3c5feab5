-- ===== src/Thermos/Planner/Runnable.antt =====
-- What the filters of `Planner` compute, one process at a time.
use aurora_client.Base.{◌≡◌, not, ◌&&◌, List, [], arith, is_nil, string_eq}
use aurora_client.Base.Sets.{member, minus, is_subset, is_nil-minus, member-keep_if, member-minus}
use aurora_client.Base.Dicts.{get, get_default, get-map_values}
use aurora_client.Thermos.Planner.{
  Name, Dependencies, Planner, has_none, filter_runnable, filter_dependencies, runnable,
}

-- The dependencies of one process; none where the dict has no entry.
unfoldable pub deps_of : Dependencies → Name → List Name
deps_of dependencies k = get_default dependencies k []

pub deps_of-filter :
    (ds : Dependencies) (given : List Name) (k : Name)
    → deps_of (filter_dependencies ds given) k ≡ minus (deps_of ds k) given
unfolding deps_of filter_dependencies minus
deps_of-filter ds given k = ground (arith, get-map_values (λ s. minus s given) ds k)

pub member-filter_runnable :
    (ps : List Name) (ds : Dependencies) (k : Name)
    → member k (filter_runnable ps ds) ≡ (is_nil (deps_of ds k) && member k ps)
unfolding filter_runnable deps_of
member-filter_runnable ps ds k =
    ground (arith, member-keep_if (λ process. has_none (get ds process)) ps k)

-- A process is runnable exactly when it is a process of the task in none of the three sets and
-- all its dependencies have finished.
pub member-runnable :
    (p : Planner) (k : Name)
    → member k (runnable p) ≡ (
        is_subset (deps_of p.dependencies k) p.finished
        && member k p.processes
        && not (member k p.running)
        && not (member k p.finished)
        && not (member k p.failed))
unfolding runnable
member-runnable p k = ground (
  arith,
  member-filter_runnable (minus (minus (minus p.processes p.running) p.finished) p.failed)
      (filter_dependencies p.dependencies p.finished) k,
  deps_of-filter p.dependencies p.finished k,
  is_nil-minus (deps_of p.dependencies k) p.finished,
  member-minus (minus (minus p.processes p.running) p.finished) p.failed k,
  member-minus (minus p.processes p.running) p.finished k,
  member-minus p.processes p.running k,
)
