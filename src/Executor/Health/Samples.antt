-- ===== src/Executor/Health/Samples.antt =====
-- One checker and its probes on which the theorems are run, with tests.
use aurora_client.Base.{◌≡◌, refl, true, false, none, some, List, [], ◌∷◌, ◌⊎◌, arith}
use aurora_client.Executor.Health.{Settings, Checker, Probe, returned, raised, init, run}
use aurora_client.Executor.Health.Deadline.{deadline_decides}
use aurora_client.Executor.Health.Failures.{failure_limit}

-- A grace period of 15 seconds is two turns of 10 seconds.
abbrev settings : Settings
settings = record {
  interval_secs = 10;
  grace_period_secs = some 15;
  max_consecutive_failures = 1;
  min_consecutive_successes = 2;
  sandbox_exists = true;
}

abbrev fresh : Checker
fresh = record {
  max_consecutive_failures = 1;
  min_consecutive_successes = 2;
  forgiving_attempts = 2;
  max_attempts_to_running = 5;
  has_snooze_file = true;
  attempts = 0;
  consecutive_failures = 0;
  consecutive_successes = 0;
  snoozed = false;
  running = false;
  healthy = true;
  reason = none;
}

init-fresh : init settings ≡ some fresh
unfolding init
init-fresh = refl

abbrev good : Probe
good = record { snooze_file_present = false; check = returned true none }

abbrev bad : Probe
bad = record { snooze_file_present = false; check = raised "timeout" }

abbrev up : Checker
up = record fresh { attempts = 4; consecutive_successes = 2; running = true }

abbrev seven : List Probe
seven = bad ∷ good ∷ bad ∷ good ∷ bad ∷ good ∷ bad ∷ []

deadline_decides_example : ((run fresh seven).running ≡ true) ⊎ ((run fresh seven).healthy ≡ false)
deadline_decides_example = deadline_decides settings fresh seven init-fresh (omega arith)

-- Three successes are needed and there is time for three.
abbrev tight : Checker
tight = record fresh { min_consecutive_successes = 3; attempts = 3 }

failure_limit_example : (run up (bad ∷ bad ∷ [])).healthy ≡ false
failure_limit_example = failure_limit (bad ∷ bad ∷ []) up refl refl (omega arith) (omega arith) refl
