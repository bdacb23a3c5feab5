-- ===== src/Client/Sla/Hosts.antt =====
-- src/main/python/apache/aurora/client/api/sla.py: what `get_safe_hosts` promises of the hosts that
-- it gives.
use aurora_client.Base.{
  ℕ, String, ◌≡◌, refl, Bool, true, not, ◌&&◌, ◌||◌, some, List, [], ◌∷◌, ◌==◌, ==_iff, string_eq,
  string_leb, Eq, length, leb, map, arith, inl, inr, Bool-cases, all, All, All-optional,
}
use aurora_client.Base.Int.{ℤ}
use aurora_client.Base.Sets.{member, is_subset, member-is_subset, member-keep_if}
use aurora_client.Base.Dicts.{Dict, get, get_default, keys, has, member-keys}
use aurora_client.Client.Grouping.{GroupingFunctions, get_grouping_or_die}
use aurora_client.Client.Grouping.Partition.{group_hosts_lem}
use aurora_client.Base.Sorting.{sort_by}
use aurora_client.Client.Sla.{SlaTask, at_least}
use aurora_client.Client.Sla.Domain.{
  JobUpTimeLimit, SafeJob, DomainVector, init, job_keys, iter_groups, job_hosts,
  simulate_hosts_down, limit_of, append_all, safe_group, safe_groups, get_safe_hosts,
}
use aurora_client.Client.Sla.Mappings.{tasks_of, hosts_of, tasks_by_job_lem}
use aurora_client.Client.Sla.Down.{
  passes, append_all_within, up_without, jobs_on, simulate_lem, member-job_keys,
}

module _ {K : Type 0} ⦃e : Eq K⦄ where
  safe_group_keeps :
      (v : DomainVector K) (limits : Dict K JobUpTimeLimit) (limit : JobUpTimeLimit)
      (hosts : List String) (jobs : List K) (acc : Dict String (List (SafeJob K)))
      (safe : Dict String (List (SafeJob K))) (job : K)
      → safe_group v limits limit hosts jobs acc ≡ some safe
      → member job jobs ≡ true
      → at_least
          (simulate_hosts_down v job
            (job_hosts v hosts job)
            (limit_of limits limit job).duration_secs).0
          (limit_of limits limit job).percentage
        ≡ true
  unfolding safe_group member
  safe_group_keeps v limits limit hosts [] acc safe job h m = cc
  safe_group_keeps v limits limit hosts (j ∷ jobs) acc safe job h m = elim (Bool-cases (j == job)) [
    | inl same ↦ ground (arith, ==_iff j job)
    | inr other ↦ ground (
      arith,
      safe_group_keeps v limits limit hosts jobs
          (append_all acc (job_hosts v hosts j) (record {
            job = j;
            percentage =
                (simulate_hosts_down v j (job_hosts v hosts j)
                  (limit_of limits limit j).duration_secs).0;
            duration_secs = (limit_of limits limit j).duration_secs;
          }))
          safe job,
    )
  ]

  safe_group_within :
      (v : DomainVector K) (limits : Dict K JobUpTimeLimit) (limit : JobUpTimeLimit)
      (hosts : List String) (jobs : List K) (acc safe : Dict String (List (SafeJob K)))
      → safe_group v limits limit hosts jobs acc ≡ some safe
      → ((host : String) → has acc host ≡ true → member host hosts ≡ true)
      → (host : String) → has safe host ≡ true
      → member host hosts ≡ true
  unfolding safe_group job_hosts
  safe_group_within v limits limit hosts [] acc safe h within host there =
      within host (ground (arith, h))
  safe_group_within v limits limit hosts (j ∷ jobs) acc safe h within host there =
      let x : SafeJob K = record {
        job = j;
        percentage =
            (simulate_hosts_down v j (job_hosts v hosts j)
              (limit_of limits limit j).duration_secs).0;
        duration_secs = (limit_of limits limit j).duration_secs;
      } in
      safe_group_within v limits limit hosts jobs (append_all acc (job_hosts v hosts j) x) safe
        (ground arith)
        (λ host' there'. ground (
          arith,
          append_all_within acc (job_hosts v hosts j) x host',
          within host',
          member-keep_if (λ h'. member h' (get_default v.hosts_by_job j [])) hosts host',
        ))
        host there

  -- Whether the job of a task keeps its promise without the hosts; a task counts if it is on one of
  -- them that the filter lets pass, and if its job has enough production tasks.
  abbrev counts : List (SlaTask K) → ℕ → List String → List String → SlaTask K → Bool
  counts tasks count filter hosts task =
      task.production
      && member task.slave_host hosts
      && passes filter task.slave_host
      && leb count (length (tasks_of task.job tasks))

  abbrev keeps :
      ℤ → List (SlaTask K) → Dict K JobUpTimeLimit → JobUpTimeLimit → List String → K → Bool
  keeps now tasks limits limit hosts job =
      at_least (up_without now tasks job hosts (limit_of limits limit job).duration_secs)
        (limit_of limits limit job).percentage

  unfoldable pub all_keep :
      ℤ
      → List (SlaTask K)
      → ℕ
      → List String
      → Dict K JobUpTimeLimit
      → JobUpTimeLimit
      → List String
      → Bool
  all_keep now tasks count filter limits limit hosts =
      all
        (λ task.
          not (counts tasks count filter hosts task) || keeps now tasks limits limit hosts task.job)
        tasks

  -- The group lists only some hosts that can all go down.
  unfoldable pub KeepsPromises :
      ℤ
      → List (SlaTask K)
      → ℕ
      → List String
      → Dict K JobUpTimeLimit
      → JobUpTimeLimit
      → Dict String (List (SafeJob K))
      → Type 0
  KeepsPromises now tasks count filter limits limit safe =
      (hosts : List String) × (is_subset (keys safe) hosts ≡ true)
      × (all_keep now tasks count filter limits limit hosts ≡ true)

  all_tasks :
      (whole : List (SlaTask K)) (p : SlaTask K → Bool) (ts : List (SlaTask K))
      → ((host : String) (job : K)
          → member host (hosts_of (tasks_of job ts)) ≡ true
          → member host (hosts_of (tasks_of job whole)) ≡ true)
      → ((task : SlaTask K)
          → (task.production ≡ true
              → member task.slave_host (hosts_of (tasks_of task.job whole)) ≡ true)
          → p task ≡ true)
      → all p ts ≡ true
  unfolding tasks_of hosts_of member
  all_tasks whole p [] within h = refl
  all_tasks whole p (task ∷ ts) within h = ground (
    arith,
    h task (λ produced.
        within task.slave_host task.job
          (ground (arith, ==_iff task.job task.job, ==_iff task.slave_host task.slave_host))),
    all_tasks whole p ts (λ host job m. within host job (ground arith)) h,
  )

  job_keeps :
      (now : ℤ) (tasks : List (SlaTask K)) (count : ℕ) (filter : List String)
      (limits : Dict K JobUpTimeLimit) (limit : JobUpTimeLimit) (hosts : List String)
      (safe : Dict String (List (SafeJob K))) (host : String) (job : K)
      → (let v = init now tasks count filter in
          safe_group v limits limit hosts (job_keys v filter hosts []) [])
        ≡ some safe
      → member host hosts ≡ true
      → passes filter host ≡ true
      → leb count (length (tasks_of job tasks)) ≡ true
      → member host (hosts_of (tasks_of job tasks)) ≡ true
      → keeps now tasks limits limit hosts job ≡ true
  unfolding init passes
  job_keeps now tasks count filter limits limit hosts safe host job h there pass enough on =
      let v = init now tasks count filter in
      ground (
        arith,
        safe_group_keeps v limits limit hosts (job_keys v filter hosts []) [] safe job h,
        member-job_keys v filter hosts [] host job there pass,
        jobs_on now tasks count filter host job,
        tasks_by_job_lem count tasks job enough,
        simulate_lem now tasks count filter hosts job (limit_of limits limit job).duration_secs
            enough,
      )

  group_keeps :
      (now : ℤ) (tasks : List (SlaTask K)) (count : ℕ) (filter : List String)
      (limits : Dict K JobUpTimeLimit) (limit : JobUpTimeLimit) (hosts : List String)
      (safe : Dict String (List (SafeJob K)))
      → (let v = init now tasks count filter in
          safe_group v limits limit hosts (job_keys v filter hosts []) [])
        ≡ some safe
      → KeepsPromises now tasks count filter limits limit safe
  unfolding KeepsPromises all_keep
  group_keeps now tasks count filter limits limit hosts safe h =
      let v = init now tasks count filter in
      (
        hosts,
        member-is_subset (keys safe) hosts (λ host m.
            safe_group_within v limits limit hosts (job_keys v filter hosts []) [] safe h
              (λ host' there. unfold get in ground arith) host
              (ground (arith, member-keys safe host))),
        all_tasks tasks
            (λ task.
              not (counts tasks count filter hosts task)
              || keeps now tasks limits limit hosts task.job)
            tasks (λ host job m. m)
            (λ task on. ground (
              arith,
              on,
              job_keeps now tasks count filter limits limit hosts safe task.slave_host task.job h,
            )),
      )

  groups_keep :
      (now : ℤ) (tasks : List (SlaTask K)) (count : ℕ) (filter : List String)
      (limits : Dict K JobUpTimeLimit) (limit : JobUpTimeLimit)
      (groups : List (String × List String))
      → (let v = init now tasks count filter in
          All (KeepsPromises now tasks count filter limits limit) (
            safe_groups v limits limit
              (map (λ group. (group.1, job_keys v filter group.1 [])) groups)))
  unfolding safe_groups
  groups_keep now tasks count filter limits limit [] = tt
  groups_keep now tasks count filter limits limit ((name, hosts) ∷ groups) =
      let v = init now tasks count filter in
      All-optional (KeepsPromises now tasks count filter limits limit)
        (safe_group v limits limit hosts (job_keys v filter hosts []) [])
        (safe_groups v limits limit (map (λ group. (group.1, job_keys v filter group.1 [])) groups))
        (group_keeps now tasks count filter limits limit hosts)
        (groups_keep now tasks count filter limits limit groups)

-- Let a known grouping function group the hosts. `get_safe_hosts` gives a list of groups, and all
-- hosts of one group can go down together: every job that has enough production tasks and one of
-- them on a host of the group that the host filter lets pass keeps, of all its production tasks,
-- the percentage of its limit up for the duration of its limit.
pub get_safe_hosts-KeepsPromises :
    {K : Type 0} ⦃e : Eq K⦄ (functions : GroupingFunctions) (now : ℤ) (tasks : List (SlaTask K))
    (count : ℕ) (filter : List String) (limits : Dict K JobUpTimeLimit) (limit : JobUpTimeLimit)
    (name : String) (group : String → String)
    → get_grouping_or_die functions name ≡ some group
    → (safe : List (Dict String (List (SafeJob K)))) × (get_safe_hosts functions
          (init now tasks count filter)
          limits
          limit
          name
        ≡ some safe)
      × All (KeepsPromises now tasks count filter limits limit) safe
unfolding get_safe_hosts iter_groups init
get_safe_hosts-KeepsPromises functions now tasks count filter limits limit name group known =
    let v = init now tasks count filter in
    let (groups, grouped, _) = group_hosts_lem functions (keys v.jobs_by_host) name group known in
    let ordered = sort_by (λ a b. string_leb a.0 b.0) groups in
    (
      safe_groups v limits limit (map (λ g. (g.1, job_keys v filter g.1 [])) ordered),
      ground (arith, grouped),
      groups_keep now tasks count filter limits limit ordered,
    )
