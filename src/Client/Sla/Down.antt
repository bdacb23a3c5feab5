-- ===== src/Client/Sla/Down.antt =====
-- src/main/python/apache/aurora/client/api/sla.py: the jobs on a group of hosts, and what stays up of
-- them when hosts go down.
use aurora_client.Base.{
  ℕ, String, ◌≡◌, refl, Bool, true, not, ◌||◌, some, List, [], ◌∷◌, ◌++◌, ◌==◌, ==_iff, string_eq,
  Eq, keep_if, length, leb, arith, inl, inr, Bool-cases, is_nil,
}
use aurora_client.Base.Int.{ℤ}
use aurora_client.Base.Sets.{member, member-keep_if, member-union}
use aurora_client.Base.Dicts.{Dict, get, get_default, has, append_at, get-put}
use aurora_client.Client.Sla.{SlaTask, UpCount, get_task_up_count, instance_uptime}
use aurora_client.Client.Sla.Domain.{
  DomainVector, init, tasks_by_job, job_keys, job_hosts, remaining, simulate_hosts_down, append_all,
}
use aurora_client.Client.Sla.Mappings.{
  tasks_of, hosts_of, tasks_by_job_lem, tasks_by_job-IsDict, add_jobs_jobs, add_jobs_hosts,
}

-- A host is skipped by a filter that it is not in.
unfoldable pub passes : List String → String → Bool
passes host_filter host = is_nil host_filter || member host host_filter

module _ {X : Type 0} where
  pub append_all_within :
      (d : Dict String (List X)) (hs : List String) (x : X) (host : String)
      → has (append_all d hs x) host ≡ true
      → (has d host || member host hs) ≡ true
  unfolding append_all member append_at
  append_all_within d [] x host h = ground arith
  append_all_within d (h ∷ hs) x host there = ground (
    arith,
    append_all_within (append_at d h x) hs x host,
    get-put d h (get_default d h [] ++ x ∷ []) host,
  )

module _ {K : Type 0} ⦃e : Eq K⦄ where
  -- The part of a job's tasks that is up for the duration once the hosts are down.
  unfoldable pub up_without : ℤ → List (SlaTask K) → K → List String → ℤ → UpCount
  up_without now tasks job hosts duration =
      get_task_up_count
        (instance_uptime now
          (keep_if (λ task. not (member task.slave_host hosts)) (tasks_of job tasks)))
        duration (some (length (tasks_of job tasks)))

  pub jobs_on :
      (now : ℤ) (tasks : List (SlaTask K)) (count : ℕ) (hosts : List String) (host : String)
      (job : K)
      → member job (get_default (init now tasks count hosts).jobs_by_host host [])
        ≡ member host (hosts_of (get_default (tasks_by_job count tasks) job []))
  unfolding init get member
  jobs_on now tasks count hosts host job = ground (
    arith,
    add_jobs_jobs ([], []) (tasks_by_job count tasks) host job (tasks_by_job-IsDict count tasks),
  )

  pub hosts_with :
      (now : ℤ) (tasks : List (SlaTask K)) (count : ℕ) (hosts : List String) (host : String)
      (job : K)
      → member host (get_default (init now tasks count hosts).hosts_by_job job [])
        ≡ member host (hosts_of (get_default (tasks_by_job count tasks) job []))
  unfolding init get member
  hosts_with now tasks count hosts host job = ground (
    arith,
    add_jobs_hosts ([], []) (tasks_by_job count tasks) host job (tasks_by_job-IsDict count tasks),
  )

  -- Hosts without tasks of the job make no difference to it.
  same_rest :
      (ts : List (SlaTask K)) (hosts with_job : List String)
      → ((host : String) → member host (hosts_of ts) ≡ true → member host with_job ≡ true)
      → keep_if
          (λ task. not (member task.slave_host (keep_if (λ host. member host with_job) hosts)))
          ts
        ≡ keep_if (λ task. not (member task.slave_host hosts)) ts
  unfolding hosts_of member
  same_rest [] hosts with_job h = refl
  same_rest (task ∷ ts) hosts with_job h = ground (
    arith,
    member-keep_if (λ host. member host with_job) hosts task.slave_host,
    h task.slave_host,
    ==_iff task.slave_host task.slave_host,
    same_rest ts hosts with_job (λ host m. h host (ground arith)),
  )

  pub rest_lem :
      (now : ℤ) (tasks : List (SlaTask K)) (count : ℕ) (filter hosts : List String) (job : K)
      → (let v = init now tasks count filter in remaining v job (job_hosts v hosts job))
        ≡ keep_if
            (λ task. not (member task.slave_host hosts))
            (get_default (tasks_by_job count tasks) job [])
  unfolding remaining job_hosts init
  rest_lem now tasks count filter hosts job =
      same_rest (get_default (tasks_by_job count tasks) job []) hosts
        (get_default (init now tasks count filter).hosts_by_job job [])
        λ host m. ground (arith, hosts_with now tasks count filter host job)

  pub simulate_lem :
      (now : ℤ) (tasks : List (SlaTask K)) (count : ℕ) (filter hosts : List String) (job : K)
      (duration : ℤ)
      → leb count (length (tasks_of job tasks)) ≡ true
      → (let v = init now tasks count filter in
          simulate_hosts_down v job (job_hosts v hosts job) duration).0
        ≡ up_without now tasks job hosts duration
  unfolding simulate_hosts_down up_without init
  simulate_lem now tasks count filter hosts job duration enough =
      rw (rest_lem now tasks count filter hosts job, tasks_by_job_lem count tasks job enough) refl

  job_keys_grow :
      (v : DomainVector K) (host_filter hosts : List String) (jobs : List K) (job : K)
      → member job jobs ≡ true
      → member job (job_keys v host_filter hosts jobs) ≡ true
  unfolding job_keys
  job_keys_grow v host_filter [] jobs job h = h
  job_keys_grow v host_filter (host ∷ hosts) jobs job h =
      job_keys_grow v host_filter hosts _ job
        (ground (arith, member-union jobs (get_default v.jobs_by_host host []) job))

  pub member-job_keys :
      (v : DomainVector K) (filter hosts : List String) (jobs : List K) (host : String) (job : K)
      → member host hosts ≡ true
      → (is_nil filter || member host v.host_filter) ≡ true
      → member job (get_default v.jobs_by_host host []) ≡ true
      → member job (job_keys v filter hosts jobs) ≡ true
  unfolding job_keys member
  member-job_keys v filter [] jobs host job there pass on = cc
  member-job_keys v filter (h ∷ hosts) jobs host job there pass on = elim (Bool-cases (h == host)) [
    | inl same ↦
        job_keys_grow v filter hosts _ job (
          ground (arith, ==_iff h host, member-union jobs (get_default v.jobs_by_host host []) job))
    | inr other ↦ member-job_keys v filter hosts _ host job (ground arith) pass on
  ]
