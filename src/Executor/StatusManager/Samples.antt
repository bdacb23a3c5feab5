-- ===== src/Executor/StatusManager/Samples.antt =====
-- A chain that starts, runs and is then out of its disk, on which the theorem is run.
use aurora_client.Base.{◌≡◌, refl, true, false, Option, none, some, List, [], ◌∷◌, ◌++◌, nat_eq}
use aurora_client.Executor.Status.{
  StatusResult, chained_status, scan, in_terminal_state, polls, disk_limit_exceeded,
}
use aurora_client.Executor.Status.Numbers.{numbered}
use aurora_client.Executor.Status.Chain.{first_with}
use aurora_client.Executor.StatusManager.{running, unhealthy, run, reads, resource_status}
use aurora_client.Executor.StatusManager.Callbacks.{
  called, before_unhealthy, if_terminal, run-reads,
}

abbrev is_starting : StatusResult numbered
is_starting = record { reason = none; status = 0 }

abbrev is_running : StatusResult numbered
is_running = record { reason = none; status = 1 }

abbrev turns : List (List (Option (StatusResult numbered)))
turns =
    (some is_starting ∷ resource_status numbered 10 5 ∷ [])
    ∷ (some is_running ∷ resource_status numbered 10 10 ∷ [])
    ∷ (some is_running ∷ resource_status numbered 10 11 ∷ [])
    ∷ []

out_of_disk : run numbered false (reads numbered none turns) ≡ record {
  calls =
      running is_running
      ∷ unhealthy (record { reason = some (disk_limit_exceeded 10 11); status = 3 })
      ∷ [];
  ended = true;
}
unfolding run reads chained_status scan in_terminal_state resource_status
out_of_disk = refl

run-reads_example : run numbered false (reads numbered none turns) ≡ record {
  calls =
      called numbered running
        (first_with numbered 1 (before_unhealthy numbered (reads numbered none turns)))
      ++ called numbered unhealthy (if_terminal numbered (polls numbered none turns));
  ended = in_terminal_state numbered (polls numbered none turns);
}
run-reads_example = run-reads numbered turns
