-- ===== src/Executor/Status/Samples.antt =====
-- A chain of checkers over four task states on which the theorems are run, with tests.
use aurora_client.Base.{◌≡◌, refl, true, false, none, some, [], ◌∷◌, nat_eq}
use aurora_client.Executor.Status.{
  text, StatusResult, scan, in_terminal_state, chained_status, polls,
}
use aurora_client.Executor.Status.Numbers.{numbered}
use aurora_client.Executor.Status.Chain.{first_terminal, last_with, first_with, scan-priority}

abbrev starting : StatusResult numbered
starting = record { reason = some (text "starting"); status = 0 }

abbrev first_running : StatusResult numbered
first_running = record { reason = some (text "first"); status = 1 }

abbrev second_running : StatusResult numbered
second_running = record { reason = some (text "second"); status = 1 }

abbrev has_failed : StatusResult numbered
has_failed = record { reason = none; status = 3 }

scan-priority_example :
    scan numbered none (some first_running ∷ some second_running ∷ []) ≡ some first_running
unfolding first_terminal in_terminal_state last_with first_with
scan-priority_example = scan-priority numbered (some first_running ∷ some second_running ∷ [])

is_final : in_terminal_state numbered (polls numbered none ((some has_failed ∷ []) ∷ [])) ≡ true
unfolding polls chained_status scan in_terminal_state
is_final = refl

none_unhealthy : first_terminal numbered (some starting ∷ []) ≡ none
unfolding first_terminal in_terminal_state
none_unhealthy = refl

not_final : in_terminal_state numbered none ≡ false
unfolding in_terminal_state
not_final = refl
