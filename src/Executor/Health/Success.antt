-- ===== src/Executor/Health/Success.antt =====
-- Consecutive successes, and the early verdict of `_should_fail_fast`.
use aurora_client.Base.{
  ◌+◌, ◌<◌, ◌≤◌, ◌≡◌, sym, ◌∙◌, subst, true, false, List, [], ◌∷◌, ◌++◌, arith, length, all,
}
use aurora_client.Executor.Health.{Checker, Probe, succeeds, do_health_check, run, should_fail_fast}
use aurora_client.Executor.Health.Steps.{step-SameSettings, step_success}
use aurora_client.Executor.Health.Lasting.{run-running, run-append}

streak :
    (ps : List Probe) (c : Checker)
    → all (succeeds c.has_snooze_file) ps ≡ true
    → c.attempts + length ps ≤ c.max_attempts_to_running + 1
    → 0 < length ps
    → c.min_consecutive_successes ≤ c.consecutive_successes + length ps
    → ((run c ps).running ≡ true) × ((run c ps).healthy ≡ c.healthy)
unfolding run
streak [] c h k l m = absurd (omega arith)
streak (p ∷ []) c h k l m =
    let (keep, _, _, now) = step_success c p (ground arith) (omega arith) in
    (ground (arith, now), keep)
streak (p ∷ q ∷ ps) c h k l m =
    let d = do_health_check c p in
    let same = step-SameSettings c p in
    let (keep, count, more, _) = step_success c p (ground arith) (omega arith) in
    let rest : all (succeeds c.has_snooze_file) (q ∷ ps) ≡ true = ground arith in
    let (r, u) =
      streak (q ∷ ps) d (subst (λ b. all (succeeds b) (q ∷ ps) ≡ true) (sym same.snooze) rest)
        (omega (arith, count, same.limit)) (omega arith) (omega (arith, more, same.successes)) in
    (r, u ∙ keep)

-- A streak of successes that reaches `min_consecutive_successes` before the deadline makes the
-- task running for good, and leaves its health as it was at the streak's end.
pub streak_runs :
    (c : Checker) (ps qs : List Probe)
    → all (succeeds c.has_snooze_file) ps ≡ true
    → c.attempts + length ps ≤ c.max_attempts_to_running + 1
    → 0 < length ps
    → c.min_consecutive_successes ≤ c.consecutive_successes + length ps
    → ((run c (ps ++ qs)).running ≡ true) × ((run c ps).healthy ≡ c.healthy)
streak_runs c ps qs h k l m =
    let (r, u) = streak ps c h k l m in (rw run-append (run-running (run c ps) qs r), u)

-- `_should_fail_fast` gives up one attempt too early: with exactly `min_consecutive_successes`
-- turns left before the deadline, it says that the attempts do not suffice, and yet that many
-- successes make the task running.
pub fail_fast_early :
    (c : Checker)
    → c.running ≡ false
    → c.consecutive_successes ≡ 0
    → c.attempts + 1 < c.max_attempts_to_running
    → c.attempts + c.min_consecutive_successes ≡ c.max_attempts_to_running + 1
    → (ps : List Probe) → all (succeeds c.has_snooze_file) ps ≡ true
    → length ps ≡ c.min_consecutive_successes
    → (should_fail_fast c ≡ true) × ((run c ps).running ≡ true)
unfolding should_fail_fast
fail_fast_early c r z room exact ps h l =
    (ground arith, (streak ps c h (omega arith) (omega arith) (omega arith)).0)
