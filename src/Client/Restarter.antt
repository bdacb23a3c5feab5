-- ===== src/Client/Restarter.antt =====
-- src/main/python/apache/aurora/client/api/restarter.py: a rolling restart. What the scheduler and
-- the watcher answer, one answer for each batch, is an argument; where the answers end, the loop
-- waits for the next.
pub mod Rolling
pub mod Persistent
mod Samples
use aurora_client.Base.{
  ℕ, String, Bool, true, false, not, ◌&&◌, ◌||◌, Option, none, some, List, [], ◌∷◌, ◌++◌,
  if◌then◌else◌, is_nil, map, leb, take, drop,
}
use aurora_client.Client.Updater.{
  FailureThreshold, new_threshold, update_failure_counts, is_failed_update,
}
use aurora_client.Client.Watcher.{ScheduledTask}

pub record RestartSettings : Type 0 where
  pub batch_size : ℕ
  pub max_per_instance_failures : ℕ
  pub max_total_failures : ℕ

-- What comes of one batch: `restartShards` is refused, or the watch ends with the failed instances
-- in the order of the set, or is terminated (`None`).
pub data Answer : Type 0 where
  refused : Answer
  watched : Option (List ℕ) → Answer

-- How the restart ends: with the response of the first query, with that of the last call, or with
-- an exception (`instances += None`); `waiting` where it goes on.
pub data Ending : Type 0 where
  query_failed nothing_to_do restarted aborted call_failed type_error waiting : Ending

-- The `while` loop: the batches that it restarts, and how it ends.
unfoldable pub roll :
    RestartSettings → FailureThreshold → List ℕ → List Answer → List (List ℕ) × Ending
roll s t instances [] =
    if is_nil instances || is_failed_update t
    then ([], if is_failed_update t then aborted else restarted)
    else (take s.batch_size instances ∷ [], waiting)
roll s t instances (refused ∷ answers) =
    if is_nil instances || is_failed_update t
    then ([], if is_failed_update t then aborted else restarted)
    else (take s.batch_size instances ∷ [], call_failed)
roll s t instances (watched none ∷ answers) =
    if is_nil instances || is_failed_update t
    then ([], if is_failed_update t then aborted else restarted)
    else (take s.batch_size instances ∷ [], type_error)
roll s t instances (watched (some failed_instances) ∷ answers) =
    let (batches, ending) =
      roll s (update_failure_counts t failed_instances).0
        (drop s.batch_size instances ++ failed_instances) answers in
    if is_nil instances || is_failed_update t
    then ([], if is_failed_update t then aborted else restarted)
    else (take s.batch_size instances ∷ batches, ending)

unfoldable pub insert : ℕ → List ℕ → List ℕ
insert i [] = i ∷ []
insert i (j ∷ js) = if leb i j then i ∷ j ∷ js else j ∷ insert i js

unfoldable pub sorted : List ℕ → List ℕ
sorted [] = []
sorted (i ∷ is) = insert i (sorted is)

-- `restart`. The query for the active tasks is refused, or gives the tasks.
unfoldable pub restart :
    RestartSettings → Option (List ScheduledTask) → List ℕ → List Answer → List (List ℕ) × Ending
restart s none instances answers = ([], query_failed)
restart s (some tasks) instances answers =
    let chosen =
      if is_nil instances then sorted (map (λ task. task.instance_id) tasks) else instances in
    if is_nil chosen
    then ([], nothing_to_do)
    else roll s (new_threshold s.max_per_instance_failures s.max_total_failures) chosen answers
