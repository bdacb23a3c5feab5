-- ===== src/Executor/Status/Sticky.antt =====
-- An unhealthy status is final, and a kill is reported.
use aurora_client.Base.{◌≡◌, refl, ◌∙◌, true, false, Option, none, some, List, [], ◌∷◌, ◌++◌, arith}
use aurora_client.Executor.Status.{
  TaskStates, StatusResult, Reason, in_terminal_state, chained_status, polls, KillManager, kill,
  kill_status,
}
use aurora_client.Executor.Status.Chain.{first_terminal, scan-priority}

module _ (m : TaskStates) where
  pub polls-terminal :
      (s : Option (StatusResult m)) (rest : List (List (Option (StatusResult m))))
      → in_terminal_state m s ≡ true
      → polls m s rest ≡ s
  unfolding polls chained_status
  polls-terminal s [] t = refl
  polls-terminal s (rs ∷ rest) t = rw t (polls-terminal s rest t)

  polls-append :
      (s : Option (StatusResult m)) (ps qs : List (List (Option (StatusResult m))))
      → polls m s (ps ++ qs) ≡ polls m (polls m s ps) qs
  unfolding polls
  polls-append s [] qs = refl
  polls-append s (rs ∷ ps) qs = polls-append (chained_status m s rs) ps qs

  -- Once a chain has reported an unhealthy status, every later read reports that status, whatever
  -- the checkers report then.
  pub polls_sticky :
      (s : Option (StatusResult m)) (ps qs : List (List (Option (StatusResult m))))
      → in_terminal_state m (polls m s ps) ≡ true
      → polls m s (ps ++ qs) ≡ polls m s ps
  polls_sticky s ps qs t = polls-append s ps qs ∙ polls-terminal (polls m s ps) qs t

  first_terminal-append :
      (rs qs : List (Option (StatusResult m)))
      → first_terminal m rs ≡ none
      → first_terminal m (rs ++ qs) ≡ first_terminal m qs
  unfolding first_terminal in_terminal_state
  first_terminal-append [] qs h = refl
  first_terminal-append (none ∷ rs) qs h = first_terminal-append rs qs h
  first_terminal-append (some r ∷ rs) qs h = ground (arith, first_terminal-append rs qs)

  -- A killed kill manager makes a chain that is not terminal yet report TASK_KILLED with the
  -- reason of the kill, unless a checker before it reports an unhealthy status.
  pub kill_reported :
      (s : Option (StatusResult m)) (k : KillManager) (reason : Reason)
      (rs qs : List (Option (StatusResult m)))
      → in_terminal_state m s ≡ false
      → first_terminal m rs ≡ none
      → chained_status m s (rs ++ kill_status m (kill k reason) ∷ qs)
        ≡ some (record { reason = some reason; status = m.task_killed })
  unfolding chained_status kill_status kill first_terminal in_terminal_state
  kill_reported s k reason rs qs t h = ground (
    arith,
    scan-priority m (rs ++ kill_status m (kill k reason) ∷ qs),
    first_terminal-append rs (kill_status m (kill k reason) ∷ qs) h,
    m.killed_starting,
    m.killed_running,
  )
