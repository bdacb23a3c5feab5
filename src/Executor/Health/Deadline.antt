-- ===== src/Executor/Health/Deadline.antt =====
-- The deadline for running.
use aurora_client.Base.{
  ◌+◌, ◌<◌, ◌≤◌, ◌≡◌, true, false, some, List, [], ◌∷◌, arith, length, ◌⊎◌, inl, inr, Bool-cases,
}
use aurora_client.Executor.Health.{Settings, Checker, Probe, init, do_health_check, run}
use aurora_client.Executor.Health.Steps.{step-SameSettings, step_undecided}
use aurora_client.Executor.Health.Lasting.{run-running, run-unhealthy, init-IsSetUp}

run_undecided :
    (ps : List Probe) (c : Checker)
    → (run c ps).running ≡ false
    → (run c ps).healthy ≡ true
    → c.attempts ≤ c.max_attempts_to_running + 1
    → c.attempts + length ps ≤ c.max_attempts_to_running + 1
unfolding run
run_undecided [] c h k b = omega arith
run_undecided (p ∷ ps) c h k b =
    let d = do_health_check c p in
    let same = step-SameSettings c p in
    let r = run-running d ps in
    let u = run-unhealthy d ps in
    let dr : d.running ≡ false = ground (arith, r) in
    let du : d.healthy ≡ true = ground (arith, u) in
    let (_, _, room, count) = step_undecided c p dr du in
    omega (arith, count, same.limit, run_undecided ps d h k (omega (arith, count, same.limit)))

-- A checker decides: after more than `max_attempts_to_running + 1` turns the task is running, or
-- it is unhealthy.
pub deadline_decides :
    (s : Settings) (c : Checker) (ps : List Probe)
    → init s ≡ some c
    → c.max_attempts_to_running + 1 < length ps
    → ((run c ps).running ≡ true) ⊎ ((run c ps).healthy ≡ false)
deadline_decides s c ps e h = elim (Bool-cases (run c ps).running) [
  | inl r ↦ inl r
  | inr r ↦ elim (Bool-cases (run c ps).healthy) [
    | inr u ↦ inr u
    | inl u ↦ absurd (omega (arith, run_undecided ps c r u (init-IsSetUp s c e).bounded))
  ]
]
