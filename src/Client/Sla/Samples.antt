-- ===== src/Client/Sla/Samples.antt =====
-- A job of two instances on which the theorems of the service levels are run, with tests.
use aurora_client.Base.{
  ℕ, zero, suc, ◌*◌, ◌/◌, ◌≤◌, ◌<◌, String, ◌≡◌, refl, true, Option, none, some, List, [], ◌∷◌, All,
  leb, length, nat_eq, string_eq, arith, is_some,
}
use aurora_client.Base.Int.{ℤ, pos, ◌+ℤ◌, ◌-ℤ◌}
use aurora_client.Base.Dicts.{Dict, get, put}
use aurora_client.Base.Sorting.{count_if, get_elem?, sort_by, insert_by}
use aurora_client.Client.Grouping.{grouping_functions, get_grouping_or_die, group_by_host}
use aurora_client.Client.Watcher.{running, pending}
use aurora_client.Client.Sla.{
  SlaTask, floor_div, first_running, uptime, values, at_least, or_length, get_task_up_count,
  get_wait_time_to_sla, put_uptime, put_uptimes, instance_uptime,
}
use aurora_client.Client.Sla.WaitTime.{is_over, wait_time_exact}
use aurora_client.Client.Sla.Domain.{
  JobUpTimeLimit, SafeJob, init, job_keys, job_hosts, get_safe_hosts, safe_group, probe_group,
  probe_job,
}
use aurora_client.Client.Sla.Mappings.{tasks_of}
use aurora_client.Client.Sla.Query.{TaskQuery}
use aurora_client.Client.Sla.Down.{up_without}
use aurora_client.Client.Sla.Hosts.{KeepsPromises, get_safe_hosts-KeepsPromises}
use aurora_client.Client.Sla.Probe.{all_safe, probe_group-safe_group, probe_job_exact}

abbrev task : ℕ → String → ℤ → SlaTask ℕ
task i host started = record {
  instance_id = i;
  job = 7;
  production = true;
  slave_host = host;
  task_events =
      record { status = pending; timestamp = pos 0 }
      ∷ record { status = running; timestamp = started }
      ∷ [];
}

-- Instance 0 has been up for 100 seconds and instance 1 for 40.
abbrev tasks : List (SlaTask ℕ)
tasks = task 0 "h0" (pos 0) ∷ task 1 "h1" (pos 60500) ∷ []

abbrev now : ℤ
now = pos 100900

abbrev uptimes : Dict ℕ ℤ
uptimes = (0, pos 100) ∷ (1, pos 40) ∷ []

both_up : instance_uptime now tasks ≡ uptimes
unfolding instance_uptime put_uptimes put_uptime put first_running uptime floor_div ◌-ℤ◌
both_up = refl

wait_twenty : get_wait_time_to_sla uptimes 100 (pos 60) none ≡ some (pos 20)
unfolding get_wait_time_to_sla get_task_up_count at_least or_length values count_if get_elem?
    sort_by insert_by ◌-ℤ◌
wait_twenty = refl

wait_time_exact_example :
    at_least (get_task_up_count (instance_uptime (now +ℤ pos (1000 * 20)) tasks) (pos 60) none) 100
    ≡ is_over (get_wait_time_to_sla (instance_uptime now tasks) 100 (pos 60) none) 20
wait_time_exact_example = wait_time_exact now tasks 100 (pos 60) none 20

abbrev scaled : ℕ → ℕ → ℕ
scaled percentile total = percentile * total / 100

product : (p t : ℕ) → p < 100 → p * t ≤ 99 * t
product p zero h = ground arith
product p (suc t) h = ground (arith, product p t h)

scaled_below : (p t : ℕ) → p < 100 → 0 < t → scaled p t < t
scaled_below p t h k = ground (arith, product p t h)

scaled_near : (p t : ℕ) → p * t ≤ 100 * suc (scaled p t)
scaled_near p t = ground arith

abbrev limit : JobUpTimeLimit
limit = record { percentage = 50; duration_secs = pos 60 }

by_host_known : get_grouping_or_die grouping_functions "by_host" ≡ some group_by_host
unfolding get_grouping_or_die grouping_functions get
by_host_known = refl

abbrev no_limits : Dict ℕ JobUpTimeLimit
no_limits = []

get_safe_hosts-KeepsPromises_example :
    (safe : List (Dict String (List (SafeJob ℕ)))) × (get_safe_hosts grouping_functions
        (init now tasks 2 [])
        no_limits
        limit
        "by_host"
      ≡ some safe)
    × All (KeepsPromises now tasks 2 [] no_limits limit) safe
get_safe_hosts-KeepsPromises_example =
    get_safe_hosts-KeepsPromises grouping_functions now tasks 2 [] no_limits limit "by_host"
      group_by_host by_host_known

abbrev one_host : List String
one_host = "h1" ∷ []

probe_group-safe_group_example :
    all_safe (
      probe_group
        (init now tasks 2 [])
        limit
        one_host
        (job_keys (init now tasks 2 []) [] one_host [])
        [])
    ≡ is_some (
        safe_group
          (init now tasks 2 [])
          []
          limit
          one_host
          (job_keys (init now tasks 2 []) [] one_host [])
          [])
probe_group-safe_group_example = probe_group-safe_group now tasks 2 [] [] one_host limit

two_count : leb 2 (length (tasks_of 7 tasks)) ≡ true
unfolding tasks_of
two_count = refl

probe_job_exact_example :
    is_over
      (probe_job
        (init now tasks 2 [])
        limit
        (job_hosts (init now tasks 2 []) one_host 7)
        7).safe_in_secs
      0
    ≡ at_least (up_without (now +ℤ pos (1000 * 0)) tasks 7 one_host (pos 60)) 50
probe_job_exact_example = probe_job_exact now tasks 2 [] one_host limit 7 0 two_count

abbrev answer : TaskQuery ℕ → Option (List (SlaTask ℕ))
answer query = some tasks
