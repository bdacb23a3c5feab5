-- ===== src/Admin/Maintenance/Samples.antt =====
-- Two hosts on which the theorems of the maintenance are run, with tests.
use aurora_client.Base.{
  ℕ, zero, suc, String, ◌≡◌, refl, true, false, some, List, [], ◌∷◌, all, ok, err, leb, length, map,
  if◌then◌else◌, ◌==◌, ◌⊎◌, nat_eq, string_eq, arith,
}
use aurora_client.Base.Int.{pos, ◌-ℤ◌}
use aurora_client.Base.Sets.{member, add, union, minus, to_set}
use aurora_client.Base.Dicts.{get, put, append_at, keep_values}
use aurora_client.Base.Sorting.{count_if, sort_by, insert_by}
use aurora_client.Client.Grouping.{
  grouping_functions, get_grouping_or_die, group_by_host, put_add, group_all, group_hosts,
}
use aurora_client.Client.Watcher.{running}
use aurora_client.Client.Sla.{
  SlaTask, floor_div, first_running, uptime, values, at_least, or_length, get_task_up_count,
  put_uptime, put_uptimes, instance_uptime,
}
use aurora_client.Client.Sla.Domain.{
  JobUpTimeLimit, init, add_task, add_tasks, tasks_by_job, add_hosts, add_jobs, job_keys,
  iter_groups, job_hosts, remaining, simulate_hosts_down, append_all, probe_job, probe_group,
  probe_groups, probe_hosts,
}
use aurora_client.Client.Sla.Mappings.{tasks_of, hosts_of}
use aurora_client.Client.Sla.Down.{up_without}
use aurora_client.Client.Sla.Query.{domain_tasks, get_tasks, task_query, get_domain_uptime_vector}
use aurora_client.Admin.Maintenance.{
  Scheduler, Statuses, drained, exited, Progress, drain, check_sla, domain_vector, unsafe_hosts,
  unsafe_in_all, iter_batches, perform_maintenance, maintain_batches, maintain_batch, drain_batch,
  wait_drained, not_drained,
}
use aurora_client.Admin.Maintenance.Waiting.{perform_maintenance_ends}
use aurora_client.Admin.Maintenance.Groups.{iter_batches_partition}
use aurora_client.Admin.Maintenance.Promises.{check_sla-at_least}
use aurora_client.Admin.Maintenance.Within.{OnlyAsked}
use aurora_client.Admin.Maintenance.Operated.{perform_maintenance-operated}

abbrev task : ℕ → String → SlaTask ℕ
task i host = record {
  instance_id = i;
  job = 7;
  production = true;
  slave_host = host;
  task_events = record { status = running; timestamp = pos 0 } ∷ [];
}

abbrev spread : ℕ → List (SlaTask ℕ)
spread zero = task 0 "h0" ∷ []
spread (suc n) = task (suc n) "h1" ∷ spread n

-- A job of 20 instances, one of them on the first host.
abbrev tasks : List (SlaTask ℕ)
tasks = spread 19

abbrev report : List String → Statuses
report [] = []
report (host ∷ hosts) = (host, drained) ∷ report hosts

-- All that is asked for is drained at the first poll.
abbrev scheduler : Scheduler ℕ
scheduler = record {
  start_maintenance = λ hosts. some hosts;
  get_tasks_without_configs = λ query. some tasks;
  drain_hosts = λ hosts. true;
  maintenance_status = λ clock hosts. some (report hosts);
  interrupted = λ clock. false;
  time = λ clock. pos 100000;
}

abbrev limit : JobUpTimeLimit
limit = record { percentage = 50; duration_secs = pos 60 }

by_host_known : get_grouping_or_die grouping_functions "by_host" ≡ some group_by_host
unfolding get_grouping_or_die grouping_functions get
by_host_known = refl

abbrev hosts : List String
hosts = "h0" ∷ "h1" ∷ []

perform_maintenance_ends_example :
    (perform_maintenance grouping_functions scheduler hosts "by_host" limit true ≡ err exited)
    ⊎ ((result : List String × Progress) × (perform_maintenance grouping_functions scheduler hosts
            "by_host" limit true
          ≡ ok result))
perform_maintenance_ends_example =
    perform_maintenance_ends grouping_functions scheduler hosts "by_host" limit true

iter_batches_partition_example :
    (batches : List (List String)) × (iter_batches grouping_functions hosts "by_host"
      ≡ some batches)
    × ((host : String) → count_if (member host) batches ≡ (if member host hosts then 1 else 0))
iter_batches_partition_example =
    iter_batches_partition grouping_functions hosts "by_host" group_by_host by_host_known

h0_group : all (λ h. group_by_host h == "h0") ("h0" ∷ []) ≡ true
unfolding group_by_host
h0_group = refl

abbrev nobody : List String
nobody = []

h0_checked : check_sla grouping_functions scheduler "by_host" limit 0 ("h0" ∷ []) ≡ some nobody
unfolding check_sla probe_hosts iter_groups group_hosts group_all get_grouping_or_die
    grouping_functions group_by_host put_add put get add member sort_by insert_by job_keys union
    minus init domain_vector get_domain_uptime_vector domain_tasks get_tasks task_query tasks_by_job
    keep_values add_tasks add_task append_at add_jobs add_hosts probe_groups probe_group job_hosts
    append_all probe_job simulate_hosts_down remaining instance_uptime put_uptimes put_uptime
    first_running uptime floor_div ◌-ℤ◌ get_task_up_count or_length values count_if at_least
    unsafe_in_all unsafe_hosts to_set
h0_checked = refl

abbrev one_drained : List String
one_drained = "h0" ∷ []

h0_inside : member "h0" one_drained ≡ true
unfolding member
h0_inside = refl

h0_safe : member "h0" nobody ≡ false
unfolding member
h0_safe = refl

twenty_count :
    leb 20 (length (tasks_of 7 (domain_tasks scheduler.get_tasks_without_configs ("h0" ∷ []))))
    ≡ true
unfolding tasks_of domain_tasks get_tasks task_query
twenty_count = refl

one_on_h0 :
    member "h0"
      (hosts_of (tasks_of 7 (domain_tasks scheduler.get_tasks_without_configs ("h0" ∷ []))))
    ≡ true
unfolding tasks_of hosts_of domain_tasks get_tasks task_query member
one_on_h0 = refl

check_sla-at_least_example :
    at_least
      (up_without
        (pos 100000)
        (domain_tasks scheduler.get_tasks_without_configs ("h0" ∷ []))
        7
        ("h0" ∷ [])
        (pos 60))
      50
    ≡ true
check_sla-at_least_example =
    check_sla-at_least grouping_functions scheduler "by_host" limit 0 group_by_host "h0" "h0" []
      nobody "h0" 7 by_host_known h0_group h0_checked h0_inside h0_safe twenty_count one_on_h0

reported :
    (hs : List String) (host : String)
    → member host (map (λ status. status.0) (report hs)) ≡ member host hs
unfolding member
reported [] host = refl
reported (h ∷ hs) host = ground (arith, reported hs host)

scheduler-OnlyAsked : OnlyAsked scheduler
unfolding OnlyAsked
scheduler-OnlyAsked clock asked statuses host answered m =
    ground (arith, answered, reported asked host)

abbrev finished : Progress
finished = record { clock = 1; left = []; operated = one_drained }

h0_drained :
    perform_maintenance grouping_functions scheduler ("h0" ∷ []) "by_host" limit true
    ≡ ok (one_drained, finished)
unfolding perform_maintenance maintain_batches maintain_batch drain_batch drain wait_drained
    not_drained iter_batches check_sla probe_hosts iter_groups group_hosts group_all
    get_grouping_or_die grouping_functions group_by_host put_add put get add member sort_by
    insert_by job_keys union minus init domain_vector get_domain_uptime_vector domain_tasks
    get_tasks task_query tasks_by_job keep_values add_tasks add_task append_at add_jobs add_hosts
    probe_groups probe_group job_hosts append_all probe_job simulate_hosts_down remaining
    instance_uptime put_uptimes put_uptime first_running uptime floor_div ◌-ℤ◌ get_task_up_count
    or_length values count_if at_least unsafe_in_all unsafe_hosts to_set
h0_drained = refl

perform_maintenance-operated_example : member "h0" one_drained ≡ member "h0" one_drained
perform_maintenance-operated_example =
    perform_maintenance-operated grouping_functions scheduler ("h0" ∷ []) "by_host" limit
      group_by_host one_drained finished scheduler-OnlyAsked by_host_known h0_drained "h0"
