-- ===== src/Executor/Health.antt =====
-- `ThreadedHealthChecker` of src/main/python/apache/aurora/executor/common/health_checker.py, and
-- what `HealthChecker` reports of it. The thread is the list of its probes: one for each turn of
-- the loop of `run`, with what the snooze file and the health check say then.
pub mod Steps
pub mod Lasting
pub mod Grace
pub mod Deadline
pub mod Success
pub mod Failures
mod Samples
use aurora_client.Base.{
  ℕ, zero, suc, ◌+◌, ◌-◌, ◌*◌, ◌/◌, ◌<◌, String, ◌≡◌, Bool, true, false, not, ◌&&◌, ◌||◌, Option,
  none, some, List, [], ◌∷◌, if◌then◌else◌, leb, ltb, nat_beq,
}
use aurora_client.Executor.Status.{
  Reason, text, internal_error, not_in_time, no_reason, failed_health_check, TaskStates,
  StatusResult,
}

pub record Settings : Type 0 where
  pub interval_secs : ℕ
  pub grace_period_secs : Option ℕ
  pub max_consecutive_failures : ℕ
  pub min_consecutive_successes : ℕ
  -- there is a sandbox, and it exists
  pub sandbox_exists : Bool

pub record Checker : Type 0 where
  pub max_consecutive_failures : ℕ
  pub min_consecutive_successes : ℕ
  pub forgiving_attempts : ℕ
  pub max_attempts_to_running : ℕ
  pub has_snooze_file : Bool
  pub attempts : ℕ
  pub consecutive_failures : ℕ
  pub consecutive_successes : ℕ
  pub snoozed : Bool
  pub running : Bool
  pub healthy : Bool
  pub reason : Option Reason

-- `math.ceil(a / float(b))`
abbrev pub ceil_div : ℕ → ℕ → ℕ
ceil_div a b = (a + b - 1) / b

abbrev pub grace_period : Settings → ℕ
grace_period s = elim s.grace_period_secs [ some secs ↦ secs | none ↦ s.interval_secs * 2 ]

-- `__init__`; an interval of 0 raises ZeroDivisionError.
unfoldable pub init : Settings → Option Checker
init s =
    let forgiving = ceil_div (grace_period s) s.interval_secs in
    if nat_beq s.interval_secs 0
    then none
    else some (record {
      max_consecutive_failures = s.max_consecutive_failures;
      min_consecutive_successes = s.min_consecutive_successes;
      forgiving_attempts = forgiving;
      max_attempts_to_running =
          forgiving + s.max_consecutive_failures + s.min_consecutive_successes;
      has_snooze_file = s.sandbox_exists;
      attempts = 0;
      consecutive_failures = 0;
      consecutive_successes = 0;
      snoozed = false;
      running = false;
      healthy = true;
      reason = none;
    })

-- What a health check does: it returns whether the service is healthy and a reason, or raises.
pub data CheckResult : Type 0 where
  returned : Bool → Option Reason → CheckResult
  raised : String → CheckResult

pub record Probe : Type 0 where
  pub snooze_file_present : Bool
  pub check : CheckResult

abbrev result_of : CheckResult → Bool × Option Reason
result_of (returned ok why) = (ok, why)
result_of (raised e) = (false, some (internal_error e))

abbrev pub is_snoozed : Checker → Probe → Bool
is_snoozed c p = c.has_snooze_file && p.snooze_file_present

unfoldable pub perform_check_if_not_disabled : Checker → Probe → Checker × Bool × Option Reason
perform_check_if_not_disabled c p =
    if is_snoozed c p
    then (record c { snoozed = true }, true, none)
    else (record c { snoozed = false }, (result_of p.check).0, (result_of p.check).1)

-- `attempts_remaining > 1 and successes_needed > attempts_remaining`, the differences brought to
-- the other sides, since they may be negative.
unfoldable pub should_fail_fast : Checker → Bool
should_fail_fast c =
    not c.running
    && (ltb (c.attempts + 1) c.max_attempts_to_running
        && ltb (c.max_attempts_to_running + c.consecutive_successes)
            (c.min_consecutive_successes + c.attempts))

unfoldable pub should_ignore_failure : Checker → Bool
should_ignore_failure c = leb c.attempts c.forgiving_attempts

unfoldable pub should_enforce_deadline : Checker → Bool
should_enforce_deadline c = not c.running && ltb c.max_attempts_to_running c.attempts

abbrev fail : Checker → Option Reason → Checker
fail c why = record c { healthy = false; reason = why }

unfoldable pub count_failure : Checker → Option Reason → Checker
count_failure c why =
    let failed = record c { consecutive_failures = c.consecutive_failures + 1 } in
    if ltb c.max_consecutive_failures (c.consecutive_failures + 1) then fail failed why else failed

unfoldable pub maybe_update_health_check_count : Checker → Bool → Option Reason → Checker
maybe_update_health_check_count c false why =
    let reset = record c { consecutive_successes = 0 } in
    if should_ignore_failure reset
    then reset
    else if should_fail_fast reset
    then count_failure (fail reset why) why
    else count_failure reset why
maybe_update_health_check_count c true why = record c {
  consecutive_successes = c.consecutive_successes + 1;
  running = c.running || leb c.min_consecutive_successes (c.consecutive_successes + 1);
  consecutive_failures = 0;
}

unfoldable pub do_health_check : Checker → Probe → Checker
do_health_check c p =
    if should_enforce_deadline c
    then fail c (some not_in_time)
    else (let (checked, ok, why) = perform_check_if_not_disabled c p in
        let counted = record checked {
          attempts =
              if leb checked.attempts checked.max_attempts_to_running
              then checked.attempts + 1
              else checked.attempts;
        } in
        maybe_update_health_check_count counted ok why)

-- The loop of `run`.
unfoldable pub run : Checker → List Probe → Checker
run c [] = c
run c (p ∷ ps) = run (do_health_check c p) ps

abbrev pub reason_text : Option Reason → Reason
reason_text none = no_reason
reason_text (some r) = r

-- `HealthChecker.status`
unfoldable pub status : (m : TaskStates) → Checker → StatusResult m
status m c =
    if c.healthy
    then (if c.running
        then record { reason = some (text "Task is healthy."); status = m.task_running }
        else record { reason = none; status = m.task_starting })
    else record {
      reason = some (failed_health_check (reason_text c.reason));
      status = m.task_failed;
    }

-- Whether the check counts as a success: snoozed, or the health check says so.
abbrev pub succeeds : Bool → Probe → Bool
succeeds has_snooze_file p = (has_snooze_file && p.snooze_file_present) || (result_of p.check).0
