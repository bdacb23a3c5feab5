-- ===== src/Executor/Health/Grace.antt =====
-- The grace period.
use aurora_client.Base.{◌+◌, ◌≤◌, ◌≡◌, refl, ◌∙◌, true, some, List, [], ◌∷◌, arith, length}
use aurora_client.Executor.Health.{Settings, Checker, Probe, init, do_health_check, run}
use aurora_client.Executor.Health.Steps.{step-SameSettings, step_grace}

run_grace :
    (ps : List Probe) (c : Checker)
    → c.attempts + length ps ≤ c.forgiving_attempts
    → c.forgiving_attempts ≤ c.max_attempts_to_running
    → (run c ps).healthy ≡ c.healthy
unfolding run
run_grace [] c h k = refl
run_grace (p ∷ ps) c h k =
    let same = step-SameSettings c p in
    let (keep, count) = step_grace c p (omega arith) k in
    run_grace ps (do_health_check c p) (omega (arith, count, same.forgiving))
      (omega (arith, same.forgiving, same.limit))
    ∙ keep

init_facts :
    (s : Settings) (c : Checker)
    → init s ≡ some c
    → (c.attempts ≡ 0) × (c.healthy ≡ true) × (c.forgiving_attempts ≤ c.max_attempts_to_running)
unfolding init
init_facts s c e = (ground arith, ground arith, ground arith)

-- Over the first `forgiving_attempts` turns a new checker stays healthy, whatever the probes say.
pub grace_period_healthy :
    (s : Settings) (c : Checker) (ps : List Probe)
    → init s ≡ some c
    → length ps ≤ c.forgiving_attempts
    → (run c ps).healthy ≡ true
grace_period_healthy s c ps e h =
    let (zero_attempts, well, room) = init_facts s c e in
    run_grace ps c (omega (arith, zero_attempts)) room ∙ well
