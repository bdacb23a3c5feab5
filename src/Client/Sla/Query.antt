-- ===== src/Client/Sla/Query.antt =====
-- src/main/python/apache/aurora/client/api/sla.py: class `Sla`, which asks the scheduler for the tasks
-- of a vector. What the scheduler answers to a query is a function.
use aurora_client.Base.{
  ℕ, String, Bool, true, false, not, ◌≡◌, refl, arith, Option, none, some, List, [], ◌∷◌, Eq,
  is_nil, is_some, all, ◌||◌, map,
}
use mathlib.Core.Option
use aurora_client.Base.Int.{ℤ}
use aurora_client.Base.Sets.{to_set, add, member}
use aurora_client.Client.Sla.{SlaTask, instance_uptime}
use aurora_client.Base.Dicts.{Dict}
use aurora_client.Client.Sla.Domain.{DomainVector, init}

-- `none` for a part that does not restrict the query; the statuses are always the live ones.
pub record TaskQuery (K : Type 0) : Type 0 where
  pub slave_hosts : Option (List String)
  pub job_keys : Option (List K)

-- `set(xs) if xs else None`
abbrev pub if_any : {A : Type 0} → List A → Option (List A)
if_any [] = none
if_any (x ∷ xs) = some (x ∷ xs)

if_any_lem : {A : Type 0} (xs : List A) → is_some (if_any xs) ≡ not (is_nil xs)
if_any_lem [] = refl
if_any_lem (x ∷ xs) = refl

module _ {K : Type 0} where
  -- An empty list stands for `None` too.
  unfoldable pub task_query : List String → List K → TaskQuery K
  task_query hosts job_keys = record { slave_hosts = if_any hosts; job_keys = if_any job_keys }

  -- `_get_tasks`: no tasks where the response is not OK.
  unfoldable pub get_tasks :
      (TaskQuery K → Option (List (SlaTask K))) → TaskQuery K → List (SlaTask K)
  get_tasks answer query = Option.get_or (answer query) []

  unfoldable pub get_job_uptime_vector :
      (TaskQuery K → Option (List (SlaTask K))) → ℤ → K → Dict ℕ ℤ
  get_job_uptime_vector answer now job_key =
      instance_uptime now (get_tasks answer (task_query [] (job_key ∷ [])))

module _ {K : Type 0} ⦃e : Eq K⦄ where
  -- The query for all tasks of the jobs that have tasks on the hosts.
  unfoldable pub job_queries : List (SlaTask K) → List (TaskQuery K)
  job_queries [] = []
  job_queries (task ∷ tasks) = task_query [] (to_set (task.job ∷ map (λ t. t.job) tasks)) ∷ []

  -- The queries that `get_domain_uptime_vector` makes, in order, of which the last is for the tasks.
  unfoldable pub domain_queries :
      (TaskQuery K → Option (List (SlaTask K))) → List String → List (TaskQuery K)
  domain_queries answer [] = task_query [] [] ∷ []
  domain_queries answer (host ∷ hosts) =
      let by_host = task_query (host ∷ hosts) [] in by_host ∷ job_queries (get_tasks answer by_host)

  -- The tasks of the vector: none where hosts are given and have no tasks.
  unfoldable pub domain_tasks :
      (TaskQuery K → Option (List (SlaTask K))) → List String → List (SlaTask K)
  domain_tasks answer [] = get_tasks answer (task_query [] [])
  domain_tasks answer (host ∷ hosts) = elim (get_tasks answer (task_query (host ∷ hosts) [])) [
    | [] ↦ []
    | task ∷ tasks ↦ get_tasks answer (task_query [] (to_set (task.job ∷ map (λ t. t.job) tasks)))
  ]

  unfoldable pub get_domain_uptime_vector :
      (TaskQuery K → Option (List (SlaTask K))) → ℤ → ℕ → List String → DomainVector K
  get_domain_uptime_vector answer now min_instance_count hosts =
      init now (domain_tasks answer hosts) min_instance_count hosts

  is_nil-to_set : (k : K) (ks : List K) → is_nil (to_set (k ∷ ks)) ≡ false
  unfolding to_set add member
  is_nil-to_set k [] = refl
  is_nil-to_set k (j ∷ ks) = ground (arith, is_nil-to_set j ks)

  unfoldable pub is_restricted : TaskQuery K → Bool
  is_restricted query = is_some query.slave_hosts || is_some query.job_keys

  job_queries_restricted : (tasks : List (SlaTask K)) → all is_restricted (job_queries tasks) ≡ true
  unfolding job_queries task_query is_restricted
  job_queries_restricted [] = refl
  job_queries_restricted (task ∷ tasks) = ground (
    arith,
    is_nil-to_set task.job (map (λ t. t.job) tasks),
    if_any_lem (to_set (task.job ∷ map (λ t. t.job) tasks)),
  )

  -- Where hosts are given, whatever the scheduler answers, no query is for all tasks of the cluster.
  pub domain_queries-restricted :
      (answer : TaskQuery K → Option (List (SlaTask K))) (host : String) (hosts : List String)
      → all is_restricted (domain_queries answer (host ∷ hosts)) ≡ true
  unfolding domain_queries task_query is_restricted
  domain_queries-restricted answer host hosts =
      job_queries_restricted (get_tasks answer (task_query (host ∷ hosts) []))
