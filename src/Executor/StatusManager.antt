-- ===== src/Executor/StatusManager.antt =====
-- src/main/python/apache/aurora/executor/status_manager.py and common/resource_manager.py: the agent
-- that polls the status of a task and calls back, and the checker of its disk. The thread is a fold
-- over what the checker reports at each turn.
pub mod Callbacks
mod Samples
use aurora_client.Base.{
  ℕ, Bool, true, false, not, Option, none, some, List, [], ◌∷◌, if◌then◌else◌, ltb,
}
use aurora_client.Executor.Status.{
  TaskStates, StatusResult, disk_limit_exceeded, is_status, chained_status,
}

module _ (m : TaskStates) where
  pub data Callback : Type 0 where
    running unhealthy : StatusResult m → Callback

  pub record Turns : Type 0 where
    pub calls : List Callback
    pub ended : Bool

  -- `StatusManager.run`, from `_running_callback_dispatched`: the callbacks in order, and whether the
  -- thread has come to its end.
  unfoldable pub run : Bool → List (Option (StatusResult m)) → Turns
  run dispatched [] = record { calls = []; ended = false }
  run dispatched (none ∷ reports) = run dispatched reports
  run dispatched (some r ∷ reports) =
      let first = run true reports in
      let rest = run dispatched reports in
      if is_status m r m.task_running
      then (if not dispatched then record first { calls = running r ∷ first.calls } else rest)
      else if not (is_status m r m.task_starting)
      then record { calls = unhealthy r ∷ []; ended = true }
      else rest

  -- What a chained checker reports at each turn.
  unfoldable pub reads :
      Option (StatusResult m)
      → List (List (Option (StatusResult m)))
      → List (Option (StatusResult m))
  reads status [] = []
  reads status (reports ∷ rest) =
      chained_status m status reports ∷ reads (chained_status m status reports) rest

  -- `ResourceManager.status`, for what the disk holds and may hold.
  unfoldable pub resource_status : ℕ → ℕ → Option (StatusResult m)
  resource_status max_disk sample =
      if ltb max_disk sample
      then some
          (record { reason = some (disk_limit_exceeded max_disk sample); status = m.task_failed })
      else none
