-- ===== src/Client/Watcher.antt =====
-- src/main/python/apache/aurora/client/api/instance_watcher.py and health_check.py: the watch over
-- the instances of an update. The loop is the list of its polls: what the scheduler answers and
-- what the clock shows at each turn. The list ends where the terminating event is set.
pub mod Sound
pub mod Seen
pub mod Verdict
pub mod Lasting
pub mod Missing
pub mod Identity
mod Samples
use aurora_client.Base.{
  ℕ, ◌+◌, String, Bool, true, false, not, ◌&&◌, Option, none, some, List, [], ◌∷◌, if◌then◌else◌,
  keep_if, Result, ok, err, ◌>>=◌, ◌==◌, nat_eq, string_eq, ltb,
}
use aurora_client.Base.Sets.{set_eq}
use aurora_client.Base.Dicts.{Dict, get, put, keys, get_default}

pub data ScheduleStatus : Type 0 where
  init throttled pending assigned starting running finished preempting restarting draining failed
        killed killing lost partitioned :
      ScheduleStatus

-- What the watcher reads of a `ScheduledTask`.
pub record ScheduledTask : Type 0 where
  pub instance_id : ℕ
  pub task_id : String
  pub status : ScheduleStatus

abbrev pub is_running : ScheduleStatus → Bool
is_running running = true
is_running _ = false

-- `StatusHealthCheck.health`; the state is `_task_ids`.
unfoldable pub health : Dict ℕ String → ScheduledTask → Dict ℕ String × Bool
health task_ids task =
    if is_running task.status
    then elim (get task_ids task.instance_id) [
      | some known ↦ (task_ids, task.task_id == known)
      | none ↦ (put task_ids task.instance_id task.task_id, true)
    ]
    else (task_ids, false)

pub record Instance : Type 0 where
  pub birthday : Option ℕ
  pub finished : Bool
  pub healthy : Bool

abbrev pub set_healthy : Instance → Bool → Instance
set_healthy instance value = record instance { healthy = value; finished = true }

pub data WatchError : Type 0 where
  type_error : WatchError

abbrev pub States : Type 0
States = Dict ℕ Instance

abbrev pub born : ℕ → Instance
born now = record { birthday = some now; finished = false; healthy = false }

-- `None + watch_secs` raises.
unfoldable pub set_instance_healthy : ℕ → States → ℕ → ℕ → Result WatchError States
set_instance_healthy watch_secs states instance_id now =
    let instance = get_default states instance_id (born now) in
    elim instance.birthday [
      | none ↦ err type_error
      | some birthday ↦ ok (
          put states instance_id
            (if ltb (birthday + watch_secs) now then set_healthy instance true else instance))
    ]

unfoldable pub set_instance_unhealthy : States → ℕ → States
set_instance_unhealthy states instance_id = elim (get states instance_id) [
  | some instance ↦ put states instance_id (set_healthy instance false)
  | none ↦ put states instance_id (record { birthday = none; finished = true; healthy = false })
]

pub record Poll : Type 0 where
  pub running_tasks : List ScheduledTask
  pub now : ℕ

-- `dict(...)`: the last task of an instance stays.
unfoldable pub tasks_by_instance : Dict ℕ ScheduledTask → List ScheduledTask → Dict ℕ ScheduledTask
tasks_by_instance d [] = d
tasks_by_instance d (task ∷ rest) = tasks_by_instance (put d task.instance_id task) rest

abbrev pub holds : (Instance → Bool) → Option Instance → Bool
holds test none = false
holds test (some instance) = test instance

abbrev pub is_finished : Option Instance → Bool
is_finished = holds (λ instance. instance.finished)

-- The keys of the instances that pass a test.
unfoldable pub select : (Instance → Bool) → States → List ℕ
select test states = keep_if (λ k. holds test (get states k)) (keys states)

-- The keys of `finished_instances()`, and the result.
abbrev pub finished_instances : States → List ℕ
finished_instances = select (λ instance. instance.finished)

abbrev pub failed_instances : States → List ℕ
failed_instances = select (λ instance. not instance.healthy)

-- The health check is any function of its state and a task.
module _ {H : Type 0} (check : H → ScheduledTask → H × Bool) (watch_secs : ℕ) where
  -- The body of the `for` loop.
  unfoldable pub visit : Dict ℕ ScheduledTask → ℕ → States → H → ℕ → Result WatchError (States × H)
  visit tasks now states h instance_id =
      if is_finished (get states instance_id)
      then ok (states, h)
      else elim (get tasks instance_id) [
        | none ↦ ok (states, h)
        | some task ↦
            if (check h task).1
            then (set_instance_healthy watch_secs states instance_id now >>= λ next.
                ok (next, (check h task).0))
            else ok (set_instance_unhealthy states instance_id, (check h task).0)
      ]

  unfoldable pub visit_all :
      Dict ℕ ScheduledTask → ℕ → States → H → List ℕ → Result WatchError (States × H)
  visit_all tasks now states h [] = ok (states, h)
  visit_all tasks now states h (instance_id ∷ rest) =
      visit tasks now states h instance_id >>= λ next. visit_all tasks now next.0 next.1 rest

  -- `watch`, from a state in the middle of the loop. `none` where it is terminated.
  unfoldable pub watch_from : List ℕ → States → H → List Poll → Result WatchError (Option (List ℕ))
  watch_from instance_ids states h [] = ok none
  watch_from instance_ids states h (poll ∷ polls) =
      visit_all (tasks_by_instance [] poll.running_tasks) poll.now states h instance_ids >>= λ next.
      if set_eq (finished_instances next.0) instance_ids
      then ok (some (failed_instances next.0))
      else watch_from instance_ids next.0 next.1 polls

  unfoldable pub watch : List ℕ → H → List Poll → Result WatchError (Option (List ℕ))
  watch instance_ids h polls = watch_from instance_ids [] h polls
