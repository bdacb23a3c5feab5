-- ===== src/Executor/Health/Failures.antt =====
-- Consecutive failures of a running task.
use aurora_client.Base.{
  ◌+◌, ◌≤◌, ◌≡◌, sym, subst, true, not, List, [], ◌∷◌, arith, leb, length, all,
}
use aurora_client.Executor.Health.{Checker, Probe, succeeds, do_health_check, run}
use aurora_client.Executor.Health.Steps.{step-SameSettings, step_lasting, step_failure}

-- A task that is running, healthy and past its grace period is healthy after a streak of failures
-- exactly as long as the streak, with the failures before it, is within the limit.
pub failure_limit :
    (ps : List Probe) (c : Checker)
    → all (λ p. not (succeeds c.has_snooze_file p)) ps ≡ true
    → c.running ≡ true
    → c.forgiving_attempts ≤ c.attempts
    → c.forgiving_attempts ≤ c.max_attempts_to_running
    → c.healthy ≡ leb c.consecutive_failures c.max_consecutive_failures
    → (run c ps).healthy ≡ leb (c.consecutive_failures + length ps) c.max_consecutive_failures
unfolding run
failure_limit [] c h r k l u = ground arith
failure_limit (p ∷ ps) c h r k l u =
    let d = do_health_check c p in
    let same = step-SameSettings c p in
    let (health, count, more) = step_failure c p (ground arith) r k l in
    let rest : all (λ q. not (succeeds c.has_snooze_file q)) ps ≡ true = ground arith in
    let ih =
      failure_limit ps d
        (subst (λ b. all (λ q. not (succeeds b q)) ps ≡ true) (sym same.snooze) rest)
        ((step_lasting c p).0 r) (omega (arith, same.forgiving))
        (omega (arith, same.forgiving, same.limit)) (ground (arith, same.failures)) in
    ground (arith, ih, same.failures)
