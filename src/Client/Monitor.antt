-- ===== src/Client/Monitor.antt =====
-- src/main/python/apache/aurora/client/api/job_monitor.py: the state of each instance, and waiting
-- until all of them pass a test. The loop is the list of what the scheduler answers at each turn;
-- the list ends where the terminating event is set. Intervals are seconds.
pub mod Timeout
mod Samples
pub mod Latest
use aurora_client.Base.{
  ℕ, ◌+◌, ◌*◌, Bool, true, false, not, ◌&&◌, ◌||◌, Option, none, some, List, [], ◌∷◌, if◌then◌else◌,
  all, map, leb, ltb, nat_eq,
}
use aurora_client.Base.Dicts.{Dict, get, put, keys, map_values}
use aurora_client.Client.Watcher.{
  ScheduleStatus, init, throttled, pending, assigned, starting, running, finished, preempting,
  restarting, draining, failed, killed, killing, lost, partitioned,
}

-- What the monitor reads of a `ScheduledTask`; the timestamp is that of its first event.
pub record MonitoredTask : Type 0 where
  pub instance_id : ℕ
  pub first_timestamp : ℕ
  pub status : ScheduleStatus

-- `status in LIVE_STATES` and `status in TERMINAL_STATES`
abbrev pub is_live : ScheduleStatus → Bool
is_live killing = true
is_live preempting = true
is_live restarting = true
is_live draining = true
is_live partitioned = true
is_live running = true
is_live _ = false

unfoldable pub terminal : ScheduleStatus → Bool
terminal failed = true
terminal finished = true
terminal killed = true
terminal lost = true
terminal _ = false

unfoldable pub running_or_finished : ScheduleStatus → Bool
running_or_finished status = is_live status || terminal status

abbrev pub Stamped : Type 0
Stamped = ℕ × ScheduleStatus

abbrev pub is_newer : Option Stamped → ℕ → Bool
is_newer none first_timestamp = true
is_newer (some known) first_timestamp = ltb known.0 first_timestamp

-- The loop of `states`, and the timestamps taken off again.
unfoldable pub collect : Dict ℕ Stamped → List MonitoredTask → Dict ℕ Stamped
collect states [] = states
collect states (task ∷ rest) =
    collect
      (if is_newer (get states task.instance_id) task.first_timestamp
        then put states task.instance_id (task.first_timestamp, task.status)
        else states)
      rest

unfoldable pub states : List MonitoredTask → Dict ℕ ScheduleStatus
states tasks = map_values (λ known. known.1) (collect [] tasks)

abbrev pub values : Dict ℕ ScheduleStatus → List ScheduleStatus
values d = map (λ entry. entry.1) d

unfoldable pub is_met : (ScheduleStatus → Bool) → List MonitoredTask → Bool
is_met predicate tasks = all predicate (values (states tasks))

abbrev pub next_interval : ℕ → ℕ → ℕ
next_interval max_poll_interval poll_interval =
    if leb max_poll_interval (2 * poll_interval) then max_poll_interval else 2 * poll_interval

-- `wait_until`, from the interval of a turn on. A terminated wait returns True.
unfoldable pub wait_until :
    (ScheduleStatus → Bool) → Bool → ℕ → ℕ → List (List MonitoredTask) → Bool
wait_until predicate with_timeout max_poll_interval poll_interval [] = true
wait_until predicate with_timeout max_poll_interval poll_interval (tasks ∷ polls) =
    let rest =
      wait_until predicate with_timeout max_poll_interval
        (next_interval max_poll_interval poll_interval) polls in
    if is_met predicate tasks
    then true
    else if with_timeout && leb max_poll_interval poll_interval
    then false
    else rest
