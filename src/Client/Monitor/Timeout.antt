-- ===== src/Client/Monitor/Timeout.antt =====
-- When a wait ends.
use aurora_client.Base.{
  ℕ, zero, suc, ◌*◌, ◌≤◌, ◌<◌, ◌≡◌, refl, Bool, true, false, not, List, [], ◌∷◌, all, leb, length,
  arith, Bool-cases, inl, inr,
}
use aurora_client.Client.Watcher.{ScheduleStatus}
use aurora_client.Client.Monitor.{MonitoredTask, is_met, next_interval, wait_until}

-- An interval doubled a number of times.
unfoldable pub doubled : ℕ → ℕ → ℕ
doubled zero interval = interval
doubled (suc n) interval = doubled n (2 * interval)

doubled_ge : (n interval : ℕ) → interval ≤ doubled n interval
unfolding doubled
doubled_ge zero interval = omega arith
doubled_ge (suc n) interval = omega (arith, doubled_ge n (2 * interval))

next_reaches :
    (n m interval : ℕ) → m ≤ doubled n (2 * interval) → m ≤ doubled n (next_interval m interval)
next_reaches n m interval h = elim (Bool-cases (leb m (2 * interval))) [
  | inl top ↦ ground (arith, doubled_ge n m)
  | inr below ↦ ground arith
]

module _ (predicate : ScheduleStatus → Bool) (max_interval : ℕ) where
  -- With a timeout a wait whose test is never met answers False after `n + 1` polls at most, where
  -- the first interval doubled `n` times reaches the greatest one, whatever the polls after those.
  pub wait_until-timeout :
      (n interval : ℕ) (polls : List (List MonitoredTask))
      → max_interval ≤ doubled n interval
      → n < length polls
      → all (λ tasks. not (is_met predicate tasks)) polls ≡ true
      → wait_until predicate true max_interval interval polls ≡ false
  unfolding wait_until doubled
  wait_until-timeout n interval [] h long unmet = absurd (omega arith)
  wait_until-timeout zero interval (tasks ∷ polls) h long unmet = ground arith
  wait_until-timeout (suc n) interval (tasks ∷ polls) h long unmet = ground (
    arith,
    wait_until-timeout n (next_interval max_interval interval) polls
        (next_reaches n max_interval interval h),
  )

  -- Without a timeout a wait never answers False.
  pub wait_until_patient :
      (interval : ℕ) (polls : List (List MonitoredTask))
      → wait_until predicate false max_interval interval polls ≡ true
  unfolding wait_until
  wait_until_patient interval [] = refl
  wait_until_patient interval (tasks ∷ polls) =
      ground (arith, wait_until_patient (next_interval max_interval interval) polls)
