-- ===== src/Client/Sla/Probe.antt =====
-- src/main/python/apache/aurora/client/api/sla.py: `probe_hosts` against `get_safe_hosts` and against
-- the tasks at a later time.
use aurora_client.Base.{
  ℕ, ◌*◌, String, ◌≡◌, refl, sym, Bool, true, false, not, ◌&&◌, ◌||◌, some, List, [], ◌∷◌, ==_iff,
  string_eq, Eq, keep_if, length, leb, arith, inl, inr, Bool-cases, is_nil, is_some, all,
  all-append, ◌⊎◌,
}
use aurora_client.Base.Int.{ℤ, pos, ◌+ℤ◌}
use aurora_client.Base.Sets.{member, member-keep_if, member-union}
use aurora_client.Base.Dicts.{Dict, get, get_default, put, append_at}
use aurora_client.Client.Sla.{SlaTask, at_least, instance_uptime, get_wait_time_to_sla}
use aurora_client.Client.Sla.WaitTime.{is_over, wait_time_exact}
use aurora_client.Client.Sla.Domain.{
  JobUpTimeLimit, SafeJob, JobUpTimeDetails, DomainVector, init, job_keys, job_hosts, remaining,
  simulate_hosts_down, limit_of, append_all, safe_group, probe_job, probe_group,
}
use aurora_client.Client.Sla.Mappings.{tasks_of, tasks_by_job_lem}
use aurora_client.Client.Sla.Down.{up_without, rest_lem, jobs_on, hosts_with}

member-is_nil :
    (host : String) (hosts : List String) → member host hosts ≡ true → is_nil hosts ≡ false
unfolding member
member-is_nil host [] h = cc
member-is_nil host (x ∷ xs) h = refl

module _ {K : Type 0} ⦃e : Eq K⦄ where
  -- No host of a group has a job that is reported unsafe.
  unfoldable pub all_safe : Dict String (List (JobUpTimeDetails K)) → Bool
  all_safe probed = all (λ entry. all (λ details. details.safe) entry.1) probed

  put_safe :
      (d : Dict String (List (JobUpTimeDetails K))) (host : String) (x : JobUpTimeDetails K)
      → all_safe (append_at d host x) ≡ (all_safe d && x.safe)
  unfolding all_safe append_at put get
  put_safe [] host x = ground arith
  put_safe ((h, ds) ∷ d) host x =
      ground (arith, put_safe d host x, all-append (λ details. details.safe) ds (x ∷ []))

  append_all_safe :
      (d : Dict String (List (JobUpTimeDetails K))) (hosts : List String) (x : JobUpTimeDetails K)
      → all_safe (append_all d hosts x) ≡ (all_safe d && (is_nil hosts || x.safe))
  unfolding append_all
  append_all_safe d [] x = ground arith
  append_all_safe d (host ∷ hosts) x =
      ground (arith, append_all_safe (append_at d host x) hosts x, put_safe d host x)

  job_keys_from :
      (v : DomainVector K) (filter hosts : List String) (jobs : List K) (job : K)
      → member job (job_keys v filter hosts jobs) ≡ true
      → (member job jobs ≡ true)
        ⊎ ((host : String) × (member host hosts ≡ true)
            × (member job (get_default v.jobs_by_host host []) ≡ true))
  unfolding job_keys member
  job_keys_from v filter [] jobs job h = inl h
  job_keys_from v filter (host ∷ hosts) jobs job h =
      elim (Bool-cases (member job (get_default v.jobs_by_host host []))) [
        | inl here ↦ inr (host, ground (arith, ==_iff host host), here)
        | inr elsewhere ↦ elim (job_keys_from v filter hosts _ job h) [
          | inl before ↦
              inl (ground (arith, member-union jobs (get_default v.jobs_by_host host []) job))
          | inr (host', there, on) ↦ inr (host', ground arith, on)
        ]
      ]

  -- The jobs of a group have hosts in it.
  job_hosts_there :
      (now : ℤ) (tasks : List (SlaTask K)) (count : ℕ) (known filter hosts : List String) (job : K)
      → (let v = init now tasks count known in
          member job (job_keys v filter hosts []) ≡ true → is_nil (job_hosts v hosts job) ≡ false)
  unfolding job_hosts
  job_hosts_there now tasks count known filter hosts job h =
      let v = init now tasks count known in
      elim (job_keys_from v filter hosts [] job h) [
        | inl never ↦ unfold member in ground arith
        | inr (host, there, on) ↦ member-is_nil host (job_hosts v hosts job) (
            ground (
              arith,
              member-keep_if (λ h'. member h' (get_default v.hosts_by_job job [])) hosts host,
              jobs_on now tasks count known host job,
              hosts_with now tasks count known host job,
            ))
      ]

  probe_group_safe :
      (v : DomainVector K) (limit : JobUpTimeLimit) (hosts : List String) (jobs : List K)
      (probed : Dict String (List (JobUpTimeDetails K))) (safe : Dict String (List (SafeJob K)))
      → ((job : K) → member job jobs ≡ true → is_nil (job_hosts v hosts job) ≡ false)
      → all_safe (probe_group v limit hosts jobs probed)
        ≡ (all_safe probed && is_some (safe_group v [] limit hosts jobs safe))
  unfolding probe_group safe_group probe_job member limit_of get
  probe_group_safe v limit hosts [] probed safe h = ground arith
  probe_group_safe v limit hosts (job ∷ jobs) probed safe h =
      let affected = job_hosts v hosts job in
      let found : SafeJob K = record {
        job = job;
        percentage = (simulate_hosts_down v job affected limit.duration_secs).0;
        duration_secs = limit.duration_secs;
      } in
      ground (
        arith,
        probe_group_safe v limit hosts jobs
            (append_all probed affected (probe_job v limit affected job))
            (append_all safe affected found) (λ j m. h j (ground arith)),
        append_all_safe probed affected (probe_job v limit affected job),
        h job,
        ==_iff job job,
      )

  probe_waits :
      (v : DomainVector K) (limit : JobUpTimeLimit) (affected : List String) (job : K)
      → (probe_job v limit affected job).safe_in_secs
        ≡ get_wait_time_to_sla
            (instance_uptime v.now (remaining v job affected))
            limit.percentage
            limit.duration_secs
            (some (length (get_default v.tasks_by_job job [])))
  unfolding probe_job simulate_hosts_down get_wait_time_to_sla
  probe_waits v limit affected job = ground arith

-- With one limit for all jobs and one group of hosts, whatever the tasks of the domain: the probe of
-- the group reports no job on any of its hosts as unsafe exactly when the group is one that
-- `get_safe_hosts` gives, where both take all jobs on the hosts of the group.
pub probe_group-safe_group :
    {K : Type 0} ⦃e : Eq K⦄ (now : ℤ) (tasks : List (SlaTask K)) (count : ℕ)
    (known filter hosts : List String) (limit : JobUpTimeLimit)
    → (let v = init now tasks count known in
        let jobs = job_keys v filter hosts [] in
        all_safe (probe_group v limit hosts jobs [])
        ≡ is_some (safe_group v [] limit hosts jobs []))
unfolding all_safe
probe_group-safe_group now tasks count known filter hosts limit =
    let v = init now tasks count known in
    probe_group_safe v limit hosts (job_keys v filter hosts []) [] []
      (job_hosts_there now tasks count known filter hosts)

-- Let a job have enough production tasks to count and no event happen to its tasks. For any hosts
-- that go down, `probe_hosts` reports the wait exactly: w whole seconds later the tasks on other
-- hosts keep the percentage of all the job's production tasks up for the duration if and only if
-- the wait that is reported is at most w (none that is reported is never over).
pub probe_job_exact :
    {K : Type 0} ⦃e : Eq K⦄ (now : ℤ) (tasks : List (SlaTask K)) (count : ℕ)
    (known hosts : List String) (limit : JobUpTimeLimit) (job : K) (w : ℕ)
    → leb count (length (tasks_of job tasks)) ≡ true
    → (let v = init now tasks count known in
        is_over (probe_job v limit (job_hosts v hosts job) job).safe_in_secs w
        ≡ at_least
            (up_without (now +ℤ pos (1000 * w)) tasks job hosts limit.duration_secs)
            limit.percentage)
unfolding up_without init
probe_job_exact now tasks count known hosts limit job w enough =
    let v = init now tasks count known in
    let rest = keep_if (λ task. not (member task.slave_host hosts)) (tasks_of job tasks) in
    rw
      (
        probe_waits v limit (job_hosts v hosts job) job,
        rest_lem now tasks count known hosts job,
        tasks_by_job_lem count tasks job enough,
      )
      (sym (
        wait_time_exact now rest limit.percentage limit.duration_secs
          (some (length (tasks_of job tasks))) w))
