-- ===== src/Executor/Status/Chain.antt =====
-- What a chain of status checkers reports.
use aurora_client.Base.{◌≡◌, refl, Option, none, some, List, [], ◌∷◌, arith, if◌then◌else◌}
use aurora_client.Executor.Status.{
  TaskStates, StatusResult, is_status, scan, result_eq_state, in_terminal_state,
}

module _ (m : TaskStates) where
  -- The first report of an unhealthy status.
  unfoldable pub first_terminal : List (Option (StatusResult m)) → Option (StatusResult m)
  first_terminal [] = none
  first_terminal (r ∷ rest) = if in_terminal_state m r then r else first_terminal rest

  -- The last report with a given status.
  unfoldable pub last_with : m.State → List (Option (StatusResult m)) → Option (StatusResult m)
  last_with state [] = none
  last_with state (none ∷ rest) = last_with state rest
  last_with state (some r ∷ rest) = elim (last_with state rest) [
    | some later ↦ some later
    | none ↦ if is_status m r state then some r else none
  ]

  unfoldable pub first_with : m.State → List (Option (StatusResult m)) → Option (StatusResult m)
  first_with state [] = none
  first_with state (none ∷ rest) = first_with state rest
  first_with state (some r ∷ rest) = if is_status m r state then some r else first_with state rest

  abbrev pub or_else : Option (StatusResult m) → Option (StatusResult m) → Option (StatusResult m)
  or_else none b = b
  or_else (some a) b = some a

  -- The priorities: unhealthy, then starting, then running, then nothing to report.
  abbrev pub priority : List (Option (StatusResult m)) → Option (StatusResult m)
  priority reports =
      or_else (first_terminal reports)
        (or_else (last_with m.task_starting reports) (first_with m.task_running reports))

  scan-some :
      (c : StatusResult m) (rs : List (Option (StatusResult m)))
      → scan m (some c) rs
        ≡ or_else (first_terminal rs) (or_else (last_with m.task_starting rs) (some c))
  unfolding scan first_terminal last_with in_terminal_state result_eq_state
  scan-some c [] = refl
  scan-some c (none ∷ rest) = scan-some c rest
  scan-some c (some r ∷ rest) =
      ground (arith, scan-some c rest, scan-some r rest, m.starting_running)

  -- The loop reports the first unhealthy status if there is one, else the last TASK_STARTING,
  -- else the first TASK_RUNNING, else nothing.
  pub scan-priority : (rs : List (Option (StatusResult m))) → scan m none rs ≡ priority rs
  unfolding scan first_terminal last_with first_with in_terminal_state
  scan-priority [] = refl
  scan-priority (none ∷ rest) = scan-priority rest
  scan-priority (some r ∷ rest) = ground (arith, scan-priority rest, scan-some r rest)
