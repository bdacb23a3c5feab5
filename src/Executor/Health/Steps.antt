-- ===== src/Executor/Health/Steps.antt =====
-- One turn of the loop, in the cases that the proofs need.
use aurora_client.Base.{◌+◌, ◌<◌, ◌≤◌, ◌≡◌, true, false, ◌&&◌, ◌||◌, arith, leb}
use aurora_client.Executor.Health.{
  Checker, Probe, succeeds, do_health_check, should_enforce_deadline, perform_check_if_not_disabled,
  maybe_update_health_check_count, should_ignore_failure, should_fail_fast, count_failure,
}

-- The settings, and the bound on the count of attempts.
pub record IsSetUp (c : Checker) : Type 0 where
  pub limit :
      c.max_attempts_to_running
      ≡ c.forgiving_attempts + c.max_consecutive_failures + c.min_consecutive_successes
  pub bounded : c.attempts ≤ c.max_attempts_to_running + 1

-- What no turn changes.
pub record SameSettings (c d : Checker) : Type 0 where
  pub forgiving : d.forgiving_attempts ≡ c.forgiving_attempts
  pub limit : d.max_attempts_to_running ≡ c.max_attempts_to_running
  pub failures : d.max_consecutive_failures ≡ c.max_consecutive_failures
  pub successes : d.min_consecutive_successes ≡ c.min_consecutive_successes
  pub snooze : d.has_snooze_file ≡ c.has_snooze_file

module _ (c : Checker) (p : Probe) where
  abbrev d : Checker
  d = do_health_check c p

  pub step-SameSettings : SameSettings c d
  unfolding do_health_check should_enforce_deadline perform_check_if_not_disabled
      maybe_update_health_check_count should_ignore_failure should_fail_fast count_failure
  step-SameSettings = ground arith

  pub step-IsSetUp : IsSetUp c → IsSetUp d
  unfolding do_health_check should_enforce_deadline perform_check_if_not_disabled
      maybe_update_health_check_count should_ignore_failure should_fail_fast count_failure
  step-IsSetUp v = ground arith

  -- Running is for good, and so is an unhealthy verdict.
  pub step_lasting : (c.running ≡ true → d.running ≡ true) × (c.healthy ≡ false → d.healthy ≡ false)
  unfolding do_health_check should_enforce_deadline perform_check_if_not_disabled
      maybe_update_health_check_count should_ignore_failure should_fail_fast count_failure
  step_lasting = ground arith

  -- Within the grace period a turn is counted and never gives a verdict.
  pub step_grace :
      c.attempts < c.forgiving_attempts
      → c.forgiving_attempts ≤ c.max_attempts_to_running
      → (d.healthy ≡ c.healthy) × (d.attempts ≡ c.attempts + 1)
  unfolding do_health_check should_enforce_deadline perform_check_if_not_disabled
      maybe_update_health_check_count should_ignore_failure should_fail_fast count_failure
  step_grace h k = ground arith

  -- A turn that leaves the task neither running nor unhealthy was counted, before the deadline.
  pub step_undecided :
      d.running ≡ false
      → d.healthy ≡ true
      → (c.running ≡ false)
        × (c.healthy ≡ true)
        × (c.attempts ≤ c.max_attempts_to_running)
        × (d.attempts ≡ c.attempts + 1)
  unfolding do_health_check should_enforce_deadline perform_check_if_not_disabled
      maybe_update_health_check_count should_ignore_failure should_fail_fast count_failure
  step_undecided h k = ground arith

  pub step_success :
      succeeds c.has_snooze_file p ≡ true
      → c.attempts ≤ c.max_attempts_to_running
      → (d.healthy ≡ c.healthy)
        × (d.attempts ≡ c.attempts + 1)
        × (d.consecutive_successes ≡ c.consecutive_successes + 1)
        × (d.running ≡ (c.running || leb c.min_consecutive_successes (c.consecutive_successes + 1)))
  unfolding do_health_check should_enforce_deadline perform_check_if_not_disabled
      maybe_update_health_check_count should_ignore_failure should_fail_fast count_failure
  step_success h k = ground arith

  pub step_failure :
      succeeds c.has_snooze_file p ≡ false
      → c.running ≡ true
      → c.forgiving_attempts ≤ c.attempts
      → c.forgiving_attempts ≤ c.max_attempts_to_running
      → (d.healthy ≡ (c.healthy && leb (c.consecutive_failures + 1) c.max_consecutive_failures))
        × (d.consecutive_failures ≡ c.consecutive_failures + 1)
        × (c.attempts ≤ d.attempts)
  unfolding do_health_check should_enforce_deadline perform_check_if_not_disabled
      maybe_update_health_check_count should_ignore_failure should_fail_fast count_failure
  step_failure h r k l = ground arith
