-- ===== src/Admin/Maintenance/Promises.antt =====
-- src/main/python/apache/aurora/admin/host_maintenance.py: `_check_sla` and what is safe to drain.
use aurora_client.Base.{
  ℕ, String, ◌≡◌, refl, ap, Bool, true, false, not, ◌||◌, some, List, [], ◌∷◌, ◌==◌, ==_iff,
  string_eq, Eq, keep_if_cong, length, leb, arith, all,
}
use aurora_client.Base.Int.{ℤ}
use aurora_client.Base.Sets.{member, add, member-keep_if, member-add}
use aurora_client.Base.Dicts.{get, get_default, put}
use aurora_client.Base.Sorting.{sort_by, insert_by}
use aurora_client.Client.Grouping.{
  GroupingFunctions, get_grouping_or_die, put_add, group_all, group_hosts,
}
use aurora_client.Client.Sla.{SlaTask, at_least}
use aurora_client.Client.Sla.Domain.{
  JobUpTimeLimit, DomainVector, init, job_keys, iter_groups, job_hosts, probe_job, probe_group,
  probe_hosts,
}
use aurora_client.Client.Sla.Mappings.{tasks_of, hosts_of, tasks_by_job_lem}
use aurora_client.Client.Sla.Query.{domain_tasks, get_domain_uptime_vector}
use aurora_client.Client.Sla.Down.{up_without, simulate_lem, member-job_keys, jobs_on, hosts_with}
use aurora_client.Admin.Maintenance.{Scheduler, domain_vector, check_sla}
use aurora_client.Admin.Maintenance.Probed.{
  safe_at, probed_safe, probe_groups_lem, length-probe_groups,
}

-- The hosts of one group, in the order in which the set is filled.
unfoldable fill : List String → List String → List String
fill hosts [] = hosts
fill hosts (h ∷ more) = fill (add h hosts) more

member-fill :
    (hosts more : List String) (host : String)
    → member host (fill hosts more) ≡ (member host more || member host hosts)
unfolding fill member
member-fill hosts [] host = refl
member-fill hosts (h ∷ more) host =
    ground (arith, member-fill (add h hosts) more host, member-add h hosts host)

abbrev is_in : (String → String) → String → String → Bool
is_in group name host = group host == name

group_all_one :
    (group : String → String) (name : String) (hosts batch : List String)
    → all (is_in group name) batch ≡ true
    → group_all group ((name, hosts) ∷ []) batch ≡ (name, fill hosts batch) ∷ []
unfolding group_all put_add put get fill
group_all_one group name hosts [] h = refl
group_all_one group name hosts (b ∷ batch) h =
    ground
      (arith, ==_iff (group b) name, ==_iff name name, group_all_one group name (add b hosts) batch)

group_all_uniform :
    (group : String → String) (name b : String) (batch : List String)
    → all (is_in group name) (b ∷ batch) ≡ true
    → group_all group [] (b ∷ batch) ≡ (name, fill (add b []) batch) ∷ []
unfolding group_all put_add put get
group_all_uniform group name b batch h =
    ground (arith, ==_iff (group b) name, group_all_one group name (add b []) batch)

member-fill_one :
    (b : String) (batch : List String) (host : String)
    → member host (fill (add b []) batch) ≡ member host (b ∷ batch)
unfolding member
member-fill_one b batch host =
    ground (arith, member-fill (add b []) batch host, member-add b [] host)

module _ {K : Type 0} ⦃e : Eq K⦄ where
  iter_groups_one :
      (functions : GroupingFunctions) (v : DomainVector K) (grouping : String)
      (group : String → String) (name b : String) (batch : List String)
      → get_grouping_or_die functions grouping ≡ some group
      → all (is_in group name) (b ∷ batch) ≡ true
      → (let hosts = fill (add b []) batch in
          iter_groups functions v (b ∷ batch) grouping []
          ≡ some ((hosts, job_keys v [] hosts []) ∷ []))
  unfolding iter_groups group_hosts sort_by insert_by
  iter_groups_one functions v grouping group name b batch known h =
      ground (arith, known, group_all_uniform group name b batch h)

  host_keeps :
      (now : ℤ) (tasks : List (SlaTask K)) (count : ℕ) (known hosts : List String)
      (limit : JobUpTimeLimit) (host : String) (job : K)
      → (let v = init now tasks count known in
          member host hosts ≡ true
          → safe_at (probe_group v limit hosts (job_keys v [] hosts []) []) host ≡ true
          → leb count (length (tasks_of job tasks)) ≡ true
          → member host (hosts_of (tasks_of job tasks)) ≡ true
          → at_least (up_without now tasks job hosts limit.duration_secs) limit.percentage ≡ true)
  unfolding probe_job job_hosts
  host_keeps now tasks count known hosts limit host job there safe enough on =
      let v = init now tasks count known in
      let kept = tasks_by_job_lem count tasks job enough in
      ground (
        arith,
        kept,
        jobs_on now tasks count known host job,
        hosts_with now tasks count known host job,
        member-job_keys v [] hosts [] host job there refl,
        member-keep_if (λ h. member h (get_default v.hosts_by_job job [])) hosts host,
        probed_safe v limit hosts (job_keys v [] hosts []) [] host job safe,
        simulate_lem now tasks count known hosts job limit.duration_secs enough,
      )

  up_without_cong :
      (now : ℤ) (tasks : List (SlaTask K)) (job : K) (hosts batch : List String) (duration : ℤ)
      → ((host : String) → member host hosts ≡ member host batch)
      → up_without now tasks job hosts duration ≡ up_without now tasks job batch duration
  unfolding up_without
  up_without_cong now tasks job hosts batch duration same =
      rw
        (keep_if_cong (λ task. not (member task.slave_host hosts))
          (λ task. not (member task.slave_host batch)) (tasks_of job tasks)
          (λ task. ap not (same task.slave_host)))
        refl

-- The hosts of one group of `iter_batches` are checked, and the check comes to a set of unsafe hosts.
-- Whatever tasks the scheduler reports, every other host of the group is safe to drain: each job with
-- enough production tasks and one of them on the host keeps its percentage of them up for the
-- duration, even when all hosts of the group are down.
pub check_sla-at_least :
    {K : Type 0} ⦃e : Eq K⦄ (functions : GroupingFunctions) (s : Scheduler K) (grouping : String)
    (limit : JobUpTimeLimit) (clock : ℕ) (group : String → String) (name b : String)
    (batch unsafe : List String) (host : String) (job : K)
    → get_grouping_or_die functions grouping ≡ some group
    → all (λ h. group h == name) (b ∷ batch) ≡ true
    → check_sla functions s grouping limit clock (b ∷ batch) ≡ some unsafe
    → member host (b ∷ batch) ≡ true
    → member host unsafe ≡ false
    → leb 20 (length (tasks_of job (domain_tasks s.get_tasks_without_configs (b ∷ batch)))) ≡ true
    → member host (hosts_of (tasks_of job (domain_tasks s.get_tasks_without_configs (b ∷ batch))))
      ≡ true
    → at_least
        (up_without
          (s.time clock)
          (domain_tasks s.get_tasks_without_configs (b ∷ batch))
          job
          (b ∷ batch)
          limit.duration_secs)
        limit.percentage
      ≡ true
unfolding check_sla probe_hosts domain_vector get_domain_uptime_vector init
check_sla-at_least functions s grouping limit clock group name b batch unsafe host job known uniform
      checked there safe enough on =
    let v = domain_vector s clock (b ∷ batch) in
    let tasks = domain_tasks s.get_tasks_without_configs (b ∷ batch) in
    let hosts = fill (add b []) batch in
    let jobs = job_keys v [] hosts [] in
    let one_group = iter_groups_one functions v grouping group name b batch known uniform in
    let same = length-probe_groups v limit (hosts, jobs) in
    ground (
      arith,
      member-fill_one b batch host,
      up_without_cong (s.time clock) tasks job hosts (b ∷ batch) limit.duration_secs
          (member-fill_one b batch),
      probe_groups_lem v limit hosts jobs host (ground (arith, one_group, same)),
      host_keeps (s.time clock) tasks 20 (b ∷ batch) hosts limit host job,
    )
