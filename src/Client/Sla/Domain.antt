-- ===== src/Client/Sla/Domain.antt =====
-- src/main/python/apache/aurora/client/api/sla.py: `DomainUpTimeSlaVector`. The order of the sets
-- of jobs and hosts is that of the lists that stand for them; the order of group names, by which
-- the groups are sorted, is a parameter.
use aurora_client.Base.{
  ℕ, String, Bool, not, ◌&&◌, Option, none, some, List, [], ◌∷◌, string_eq, string_leb, Eq,
  if◌then◌else◌, keep_if, length, leb, is_nil, map,
}
use aurora_client.Base.Int.{ℤ, pos}
use aurora_client.Base.Sets.{member, union}
use aurora_client.Base.Dicts.{Dict, get_default, keys, append_at, keep_values}
use aurora_client.Base.Sorting.{sort_by}
use aurora_client.Client.Grouping.{GroupingFunctions, put_add, group_hosts}
use aurora_client.Client.Sla.{
  SlaTask, UpCount, at_least, get_task_up_count, get_wait_time_to_sla, instance_uptime,
}

-- What a job promises, as it is given and as it is reported.
pub record JobUpTimeLimit : Type 0 where
  pub percentage : ℕ
  pub duration_secs : ℤ

pub record SafeJob (K : Type 0) : Type 0 where
  pub job : K
  pub percentage : UpCount
  pub duration_secs : ℤ

pub record JobUpTimeDetails (K : Type 0) : Type 0 where
  pub job : K
  pub predicted_percentage : UpCount
  pub safe : Bool
  pub safe_in_secs : Option ℤ

-- An empty list stands for `hosts=None` too.
pub record DomainVector (K : Type 0) : Type 0 where
  pub now : ℤ
  pub tasks_by_job : Dict K (List (SlaTask K))
  pub jobs_by_host : Dict String (List K)
  pub hosts_by_job : Dict K (List String)
  pub host_filter : List String

abbrev pub Hosting : Type 0 → Type 0
Hosting K = Dict String (List K) × Dict K (List String)

-- The hosts of a group, and the jobs on them.
abbrev pub Group : Type 0 → Type 0
Group K = List String × List K

-- `d[host].append(x)` for all hosts
module _ {X : Type 0} where
  unfoldable pub append_all : Dict String (List X) → List String → X → Dict String (List X)
  append_all d [] x = d
  append_all d (host ∷ hosts) x = append_all (append_at d host x) hosts x

module _ {K : Type 0} ⦃e : Eq K⦄ where
  -- `_init_mappings`: the production tasks of each job, of which the jobs with enough are kept.
  unfoldable pub add_task : Dict K (List (SlaTask K)) → SlaTask K → Dict K (List (SlaTask K))
  add_task tasks_by_job task =
      if task.production then append_at tasks_by_job task.job task else tasks_by_job

  unfoldable pub add_tasks :
      Dict K (List (SlaTask K)) → List (SlaTask K) → Dict K (List (SlaTask K))
  add_tasks tasks_by_job [] = tasks_by_job
  add_tasks tasks_by_job (task ∷ tasks) = add_tasks (add_task tasks_by_job task) tasks

  unfoldable pub tasks_by_job : ℕ → List (SlaTask K) → Dict K (List (SlaTask K))
  tasks_by_job count tasks = keep_values (λ ts. leb count (length ts)) (add_tasks [] tasks)

  -- The inner loop and the outer loop over the jobs that are kept.
  unfoldable pub add_hosts : Hosting K → K → List (SlaTask K) → Hosting K
  add_hosts hosting job [] = hosting
  add_hosts (jobs_by_host, hosts_by_job) job (task ∷ tasks) =
      add_hosts (put_add jobs_by_host task.slave_host job, put_add hosts_by_job job task.slave_host)
        job tasks

  unfoldable pub add_jobs : Hosting K → Dict K (List (SlaTask K)) → Hosting K
  add_jobs hosting [] = hosting
  add_jobs hosting ((job, tasks) ∷ jobs) = add_jobs (add_hosts hosting job tasks) jobs

  -- `__init__`
  unfoldable pub init : ℤ → List (SlaTask K) → ℕ → List String → DomainVector K
  init now tasks min_instance_count hosts =
      let kept = tasks_by_job min_instance_count tasks in
      let (jobs_by_host, hosts_by_job) = add_jobs ([], []) kept in
      record {
        now = now;
        tasks_by_job = kept;
        jobs_by_host = jobs_by_host;
        hosts_by_job = hosts_by_job;
        host_filter = hosts;
      }

  abbrev is_skipped : DomainVector K → List String → String → Bool
  is_skipped v host_filter host = not (is_nil host_filter) && not (member host v.host_filter)

  unfoldable pub job_keys : DomainVector K → List String → List String → List K → List K
  job_keys v host_filter [] jobs = jobs
  job_keys v host_filter (host ∷ hosts) jobs = job_keys v host_filter hosts (
      if is_skipped v host_filter host
      then jobs
      else union jobs (get_default v.jobs_by_host host []))

  -- `_iter_groups`; `none` where the client dies.
  unfoldable pub iter_groups :
      GroupingFunctions
      → DomainVector K
      → List String
      → String
      → List String
      → Option (List (Group K))
  iter_groups functions v hosts_to_group grouping_function host_filter =
      elim (group_hosts functions hosts_to_group grouping_function) [
        | none ↦ none
        | some groups ↦ some (
            map (λ group. (group.1, job_keys v host_filter group.1 []))
              (sort_by (λ a b. string_leb a.0 b.0) groups))
      ]

  -- `hosts.intersection(self._hosts_by_job[job_key])`
  unfoldable pub job_hosts : DomainVector K → List String → K → List String
  job_hosts v hosts job = keep_if (λ host. member host (get_default v.hosts_by_job job [])) hosts

  unfoldable pub remaining : DomainVector K → K → List String → List (SlaTask K)
  remaining v job hosts =
      keep_if (λ task. not (member task.slave_host hosts)) (get_default v.tasks_by_job job [])

  -- `_simulate_hosts_down`: the percentage, the total count and the uptimes that remain.
  unfoldable pub simulate_hosts_down : DomainVector K → K → List String → ℤ → UpCount × ℕ × Dict ℕ ℤ
  simulate_hosts_down v job hosts duration =
      let total_count = length (get_default v.tasks_by_job job []) in
      let vector = instance_uptime v.now (remaining v job hosts) in
      (get_task_up_count vector duration (some total_count), total_count, vector)

  unfoldable pub limit_of : Dict K JobUpTimeLimit → JobUpTimeLimit → K → JobUpTimeLimit
  limit_of job_limits limit job = get_default job_limits job limit

  -- The loop over the jobs of one group, which breaks (`none`) at a job that would break its
  -- promise.
  unfoldable pub safe_group :
      DomainVector K
      → Dict K JobUpTimeLimit
      → JobUpTimeLimit
      → List String
      → List K
      → Dict String (List (SafeJob K))
      → Option (Dict String (List (SafeJob K)))
  safe_group v job_limits limit hosts [] safe_hosts = some safe_hosts
  safe_group v job_limits limit hosts (job ∷ jobs) safe_hosts =
      let job_limit = limit_of job_limits limit job in
      let affected = job_hosts v hosts job in
      let percentage = (simulate_hosts_down v job affected job_limit.duration_secs).0 in
      let found : SafeJob K = record {
        job = job;
        percentage = percentage;
        duration_secs = job_limit.duration_secs;
      } in
      let rest = safe_group v job_limits limit hosts jobs (append_all safe_hosts affected found) in
      if at_least percentage job_limit.percentage then rest else none

  unfoldable pub safe_groups :
      DomainVector K
      → Dict K JobUpTimeLimit
      → JobUpTimeLimit
      → List (Group K)
      → List (Dict String (List (SafeJob K)))
  safe_groups v job_limits limit [] = []
  safe_groups v job_limits limit ((hosts, jobs) ∷ groups) =
      let rest = safe_groups v job_limits limit groups in
      elim (safe_group v job_limits limit hosts jobs []) [
        | none ↦ rest
        | some safe_hosts ↦ safe_hosts ∷ rest
      ]

  unfoldable pub get_safe_hosts :
      GroupingFunctions
      → DomainVector K
      → Dict K JobUpTimeLimit
      → JobUpTimeLimit
      → String
      → Option (List (Dict String (List (SafeJob K))))
  get_safe_hosts functions v job_limits limit grouping_function =
      elim (iter_groups functions v (keys v.jobs_by_host) grouping_function v.host_filter) [
        | none ↦ none
        | some groups ↦ some (safe_groups v job_limits limit groups)
      ]

  unfoldable pub probe_job : DomainVector K → JobUpTimeLimit → List String → K → JobUpTimeDetails K
  probe_job v limit affected job =
      let (percentage, total_count, vector) =
        simulate_hosts_down v job affected limit.duration_secs in
      let safe = at_least percentage limit.percentage in
      record {
        job = job;
        predicted_percentage = percentage;
        safe = safe;
        safe_in_secs =
            if safe
            then some (pos 0)
            else get_wait_time_to_sla vector limit.percentage limit.duration_secs
                (some total_count);
      }

  unfoldable pub probe_group :
      DomainVector K
      → JobUpTimeLimit
      → List String
      → List K
      → Dict String (List (JobUpTimeDetails K))
      → Dict String (List (JobUpTimeDetails K))
  probe_group v limit hosts [] probed_hosts = probed_hosts
  probe_group v limit hosts (job ∷ jobs) probed_hosts =
      let affected = job_hosts v hosts job in
      probe_group v limit hosts jobs
        (append_all probed_hosts affected (probe_job v limit affected job))

  unfoldable pub probe_groups :
      DomainVector K
      → JobUpTimeLimit
      → List (Group K)
      → List (Dict String (List (JobUpTimeDetails K)))
  probe_groups v limit [] = []
  probe_groups v limit ((hosts, jobs) ∷ groups) =
      let probed_hosts = probe_group v limit hosts jobs [] in
      let rest = probe_groups v limit groups in
      if is_nil probed_hosts then rest else probed_hosts ∷ rest

  unfoldable pub probe_hosts :
      GroupingFunctions
      → DomainVector K
      → JobUpTimeLimit
      → String
      → Option (List (Dict String (List (JobUpTimeDetails K))))
  probe_hosts functions v limit grouping_function =
      elim (iter_groups functions v v.host_filter grouping_function []) [
        | none ↦ none
        | some groups ↦ some (probe_groups v limit groups)
      ]
