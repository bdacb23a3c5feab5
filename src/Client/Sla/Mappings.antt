-- ===== src/Client/Sla/Mappings.antt =====
-- src/main/python/apache/aurora/client/api/sla.py: the three mappings of `_init_mappings`, against
-- the list of all tasks.
use aurora_client.Base.{
  append_assoc, append_nil, ℕ, String, ◌≡◌, refl, Bool, true, ◌&&◌, ◌||◌, List, [], ◌∷◌, ◌++◌, ◌==◌,
  ==_iff, string_eq, Eq, if◌then◌else◌, keep_if, length, leb, map, arith, inl, inr, Option-cases,
  if_both,
}
use aurora_client.Base.Sets.{member}
use aurora_client.Base.Dicts.{
  Dict, get, get_default, get-append_at, append_at, IsDict, put-IsDict, keep_values,
  get-keep_values, get-keep_none,
}
use aurora_client.Client.Grouping.{put_add}
use aurora_client.Client.Grouping.Partition.{member-put_add}
use aurora_client.Client.Sla.{SlaTask}
use aurora_client.Client.Sla.Domain.{
  Hosting, add_task, add_tasks, tasks_by_job, add_hosts, add_jobs,
}

one_more : (a b c m : Bool) → ((a && b) || ((c && a) || m)) ≡ ((a && (if c then true else b)) || m)
one_more a b c m = ground arith

one_more' : (a b c m : Bool) → ((a && b) || ((a && c) || m)) ≡ ((a && (if c then true else b)) || m)
one_more' a b c m = ground arith

module _ {K : Type 0} ⦃e : Eq K⦄ where
  -- The production tasks of a job.
  unfoldable pub tasks_of : K → List (SlaTask K) → List (SlaTask K)
  tasks_of job tasks = keep_if (λ task. task.production && (task.job == job)) tasks

  unfoldable pub hosts_of : List (SlaTask K) → List String
  hosts_of tasks = map (λ task. task.slave_host) tasks

  add_tasks_lem :
      (d : Dict K (List (SlaTask K))) (tasks : List (SlaTask K)) (job : K)
      → get_default (add_tasks d tasks) job [] ≡ get_default d job [] ++ tasks_of job tasks
  unfolding add_tasks add_task tasks_of
  add_tasks_lem d [] job = ground (arith, append_nil (get_default d job []))
  add_tasks_lem d (task ∷ tasks) job = ground (
    arith,
    add_tasks_lem d tasks job,
    add_tasks_lem (append_at d task.job task) tasks job,
    get-append_at d task.job task job,
    append_assoc (get_default d job []) (task ∷ []) (tasks_of job tasks),
  )

  add_tasks-IsDict :
      (d : Dict K (List (SlaTask K))) (tasks : List (SlaTask K))
      → IsDict d
      → IsDict (add_tasks d tasks)
  unfolding add_tasks add_task append_at
  add_tasks-IsDict d [] h = h
  add_tasks-IsDict d (task ∷ tasks) h = add_tasks-IsDict (add_task d task) tasks (
      if_both IsDict task.production (append_at d task.job task) d
        (put-IsDict d task.job (get_default d task.job [] ++ task ∷ []) h) h)

  -- Enough production tasks for a job to count.
  pub tasks_by_job_lem :
      (count : ℕ) (tasks : List (SlaTask K)) (job : K)
      → leb count (length (tasks_of job tasks)) ≡ true
      → get_default (tasks_by_job count tasks) job [] ≡ tasks_of job tasks
  unfolding tasks_by_job get IsDict
  tasks_by_job_lem count tasks job h =
      let all_tasks = add_tasks_lem [] tasks job in
      elim (Option-cases (get (add_tasks [] tasks) job)) [
        | inl none_there ↦ ground (
          arith,
          all_tasks,
          none_there,
          get-keep_none (λ ts. leb count (length ts)) (add_tasks [] tasks) job none_there,
        )
        | inr (ts, found) ↦ ground (
          arith,
          all_tasks,
          found,
          get-keep_values (λ ts'. leb count (length ts')) (add_tasks [] tasks) job ts
              (add_tasks-IsDict [] tasks tt) found,
        )
      ]

  keep_values-IsDict :
      (p : List (SlaTask K) → Bool) (d : Dict K (List (SlaTask K)))
      → IsDict d
      → IsDict (keep_values p d)
  unfolding keep_values IsDict
  keep_values-IsDict p [] h = h
  keep_values-IsDict p ((j, ts) ∷ d) (new, rest) =
      if_both IsDict (p ts) ((j, ts) ∷ keep_values p d) (keep_values p d)
        (get-keep_none p d j new, keep_values-IsDict p d rest) (keep_values-IsDict p d rest)

  add_hosts_jobs :
      (hosting : Hosting K) (job : K) (tasks : List (SlaTask K)) (host : String) (j : K)
      → member j (get_default (add_hosts hosting job tasks).0 host [])
        ≡ (((job == j) && member host (hosts_of tasks)) || member j (get_default hosting.0 host []))
  unfolding add_hosts hosts_of member
  add_hosts_jobs hosting job [] host j = ground arith
  add_hosts_jobs hosting job (task ∷ tasks) host j =
      rw
        (
          add_hosts_jobs
              (put_add hosting.0 task.slave_host job, put_add hosting.1 job task.slave_host) job
              tasks host j,
          member-put_add hosting.0 task.slave_host job host j,
        )
        (one_more (job == j) (member host (hosts_of tasks)) (task.slave_host == host)
          (member j (get_default hosting.0 host [])))

  add_hosts_hosts :
      (hosting : Hosting K) (job : K) (tasks : List (SlaTask K)) (host : String) (j : K)
      → member host (get_default (add_hosts hosting job tasks).1 j [])
        ≡ (((job == j) && member host (hosts_of tasks)) || member host (get_default hosting.1 j []))
  unfolding add_hosts hosts_of member
  add_hosts_hosts hosting job [] host j = ground arith
  add_hosts_hosts hosting job (task ∷ tasks) host j =
      rw
        (
          add_hosts_hosts
              (put_add hosting.0 task.slave_host job, put_add hosting.1 job task.slave_host) job
              tasks host j,
          member-put_add hosting.1 job task.slave_host j host,
        )
        (one_more' (job == j) (member host (hosts_of tasks)) (task.slave_host == host)
          (member host (get_default hosting.1 j [])))

  pub add_jobs_jobs :
      (hosting : Hosting K) (d : Dict K (List (SlaTask K))) (host : String) (j : K)
      → IsDict d
      → member j (get_default (add_jobs hosting d).0 host [])
        ≡ (member host (hosts_of (get_default d j [])) || member j (get_default hosting.0 host []))
  unfolding add_jobs hosts_of member get IsDict
  add_jobs_jobs hosting [] host j _ = refl
  add_jobs_jobs hosting ((job, tasks) ∷ d) host j (new, rest) = ground (
    arith,
    add_hosts_jobs hosting job tasks host j,
    ==_iff job j,
    add_jobs_jobs (add_hosts hosting job tasks) d host j rest,
  )

  pub add_jobs_hosts :
      (hosting : Hosting K) (d : Dict K (List (SlaTask K))) (host : String) (j : K)
      → IsDict d
      → member host (get_default (add_jobs hosting d).1 j [])
        ≡ (member host (hosts_of (get_default d j [])) || member host (get_default hosting.1 j []))
  unfolding add_jobs hosts_of member get IsDict
  add_jobs_hosts hosting [] host j _ = refl
  add_jobs_hosts hosting ((job, tasks) ∷ d) host j (new, rest) = ground (
    arith,
    add_hosts_hosts hosting job tasks host j,
    ==_iff job j,
    add_jobs_hosts (add_hosts hosting job tasks) d host j rest,
  )

  pub tasks_by_job-IsDict :
      (count : ℕ) (tasks : List (SlaTask K)) → IsDict (tasks_by_job count tasks)
  unfolding tasks_by_job
  tasks_by_job-IsDict count tasks =
      keep_values-IsDict (λ ts. leb count (length ts)) (add_tasks [] tasks)
        (add_tasks-IsDict [] tasks (unfold IsDict in tt))
