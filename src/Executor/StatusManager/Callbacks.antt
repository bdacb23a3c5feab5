-- ===== src/Executor/StatusManager/Callbacks.antt =====
-- Which callbacks the status manager makes over a chained checker.
use aurora_client.Base.{
  ◌≡◌, refl, Bool, true, false, Option, none, some, List, [], ◌∷◌, ◌++◌, arith, if◌then◌else◌,
  Bool-cases, inl, inr, is_some,
}
use aurora_client.Executor.Status.{
  TaskStates, StatusResult, in_terminal_state, chained_status, polls,
}
use aurora_client.Executor.Status.Chain.{first_terminal, first_with}
use aurora_client.Executor.Status.Sticky.{polls-terminal}
use aurora_client.Executor.StatusManager.{Callback, running, unhealthy, run, reads}

module _ (m : TaskStates) where
  abbrev pub called : (StatusResult m → Callback m) → Option (StatusResult m) → List (Callback m)
  called f none = []
  called f (some r) = f r ∷ []

  -- The reports before the first unhealthy one.
  unfoldable pub before_unhealthy : List (Option (StatusResult m)) → List (Option (StatusResult m))
  before_unhealthy [] = []
  before_unhealthy (r ∷ reports) =
      if in_terminal_state m r then [] else r ∷ before_unhealthy reports

  abbrev started : Bool → List (Option (StatusResult m)) → List (Callback m)
  started true reports = []
  started false reports = called running (first_with m m.task_running (before_unhealthy reports))

  run_lem :
      (dispatched : Bool) (reports : List (Option (StatusResult m)))
      → run m dispatched reports ≡ record {
        calls = started dispatched reports ++ called unhealthy (first_terminal m reports);
        ended = is_some (first_terminal m reports);
      }
  unfolding run before_unhealthy first_terminal first_with in_terminal_state
  run_lem true [] = refl
  run_lem false [] = refl
  run_lem true (none ∷ reports) = run_lem true reports
  run_lem false (none ∷ reports) = run_lem false reports
  run_lem true (some r ∷ reports) = ground (arith, run_lem true reports)
  run_lem false (some r ∷ reports) = ground (arith, run_lem true reports, run_lem false reports)

  abbrev pub if_terminal : Option (StatusResult m) → Option (StatusResult m)
  if_terminal r = if in_terminal_state m r then r else none

  first_terminal-reads :
      (s : Option (StatusResult m)) (ps : List (List (Option (StatusResult m))))
      → in_terminal_state m s ≡ false
      → first_terminal m (reads m s ps) ≡ if_terminal (polls m s ps)
  unfolding first_terminal reads polls
  first_terminal-reads s [] h = ground (arith, h)
  first_terminal-reads s (p ∷ ps) h =
      let c = chained_status m s p in
      elim (Bool-cases (in_terminal_state m c)) [
        | inl over ↦ ground (arith, over, polls-terminal m c ps over)
        | inr on ↦ ground (arith, on, first_terminal-reads c ps on)
      ]

  is_some-if_terminal :
      (r : Option (StatusResult m)) → is_some (if_terminal r) ≡ in_terminal_state m r
  unfolding in_terminal_state
  is_some-if_terminal none = refl
  is_some-if_terminal (some r) = ground arith

  -- Over whatever the checkers of a chain report at each turn, the status manager ends exactly when the
  -- chain's last status is an unhealthy one. It calls back at most twice: with the first TASK_RUNNING
  -- of the chain before that, if there is one, and at its end with that unhealthy status.
  pub run-reads :
      (ps : List (List (Option (StatusResult m))))
      → run m false (reads m none ps) ≡ record {
        calls =
            called running (first_with m m.task_running (before_unhealthy (reads m none ps)))
            ++ called unhealthy (if_terminal (polls m none ps));
        ended = in_terminal_state m (polls m none ps);
      }
  run-reads ps = ground (
    arith,
    run_lem false (reads m none ps),
    first_terminal-reads none ps (unfold in_terminal_state in refl),
    is_some-if_terminal (polls m none ps),
  )
