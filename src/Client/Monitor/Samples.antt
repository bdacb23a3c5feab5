-- ===== src/Client/Monitor/Samples.antt =====
-- A job of two instances on which the theorems of the monitor are run, with tests.
use aurora_client.Base.{◌≤◌, ◌≡◌, refl, true, false, not, List, [], ◌∷◌, arith, all, nat_eq}
use aurora_client.Base.Dicts.{get, put, map_values}
use aurora_client.Client.Watcher.{running, pending, failed}
use aurora_client.Client.Monitor.{MonitoredTask, terminal, collect, states, is_met, wait_until}
use aurora_client.Client.Monitor.Timeout.{doubled, wait_until-timeout}

-- The task of instance 1 that failed is older than the one that is pending.
abbrev tasks : List MonitoredTask
tasks =
    record { instance_id = 0; first_timestamp = 5; status = running }
    ∷ record { instance_id = 1; first_timestamp = 9; status = pending }
    ∷ record { instance_id = 1; first_timestamp = 7; status = failed }
    ∷ []

abbrev polls : List (List MonitoredTask)
polls = tasks ∷ tasks ∷ tasks ∷ []

unmet : all (λ ts. not (is_met terminal ts)) polls ≡ true
unfolding is_met states collect map_values get put terminal
unmet = refl

reached : 8 ≤ doubled 2 2
unfolding doubled
reached = omega arith

wait_until-timeout_example : wait_until terminal true 8 2 polls ≡ false
wait_until-timeout_example = wait_until-timeout terminal 8 2 2 polls reached (omega arith) unmet

-- Terminated before its test was ever met, the wait answers True.
terminated_early : wait_until terminal true 150 2 (tasks ∷ []) ≡ true
unfolding wait_until is_met states collect map_values get put terminal
terminated_early = refl
