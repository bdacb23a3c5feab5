-- ===== src/Executor/Health/Lasting.antt =====
-- Verdicts that no later turn takes back, and what every history keeps.
use aurora_client.Base.{◌≡◌, refl, true, false, some, List, [], ◌∷◌, ◌++◌, arith}
use aurora_client.Executor.Health.{Settings, Checker, Probe, init, do_health_check, run}
use aurora_client.Executor.Health.Steps.{IsSetUp, step-IsSetUp, step_lasting}

pub run-append : (c : Checker) (ps qs : List Probe) → run c (ps ++ qs) ≡ run (run c ps) qs
unfolding run
run-append c [] qs = refl
run-append c (p ∷ ps) qs = run-append (do_health_check c p) ps qs

run_lasting :
    (c : Checker) (ps : List Probe)
    → (c.running ≡ true → (run c ps).running ≡ true)
      × (c.healthy ≡ false → (run c ps).healthy ≡ false)
unfolding run
run_lasting c [] = (λ h. h, λ h. h)
run_lasting c (p ∷ ps) =
    let (r, u) = run_lasting (do_health_check c p) ps in
    let (r', u') = step_lasting c p in (λ h. r (r' h), λ h. u (u' h))

-- A task that is running stays so, whatever the probes say.
pub run-running : (c : Checker) (ps : List Probe) → c.running ≡ true → (run c ps).running ≡ true
run-running c ps = (run_lasting c ps).0

-- An unhealthy task stays unhealthy, whatever the probes say.
pub run-unhealthy : (c : Checker) (ps : List Probe) → c.healthy ≡ false → (run c ps).healthy ≡ false
run-unhealthy c ps = (run_lasting c ps).1

pub init-IsSetUp : (s : Settings) (c : Checker) → init s ≡ some c → IsSetUp c
unfolding init
init-IsSetUp s c e = ground arith

keep-IsSetUp : (ps : List Probe) (c : Checker) → IsSetUp c → IsSetUp (run c ps)
unfolding run
keep-IsSetUp [] c v = v
keep-IsSetUp (p ∷ ps) c v = keep-IsSetUp ps (do_health_check c p) (step-IsSetUp c p v)

-- After any history of a new checker the limit on attempts is the sum of the three settings, and
-- the count of attempts passes it by one at most.
pub run-IsSetUp :
    (s : Settings) (c : Checker) (ps : List Probe) → init s ≡ some c → IsSetUp (run c ps)
run-IsSetUp s c ps e = keep-IsSetUp ps c (init-IsSetUp s c e)
