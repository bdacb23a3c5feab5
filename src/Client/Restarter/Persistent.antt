-- ===== src/Client/Restarter/Persistent.antt =====
-- An instance that fails whenever it is restarted.
use aurora_client.Base.{
  ℕ, zero, suc, ◌+◌, ◌<◌, ◌≡◌, refl, false, some, List, [], ◌∷◌, arith, take, drop, nat_eq, ltb,
  ==_iff,
}
use aurora_client.Base.Dicts.{get, put}
use aurora_client.Client.Updater.{
  FailureThreshold, new_threshold, update_failure_counts, is_failed_update, exceeded_count,
}
use aurora_client.Client.Watcher.{ScheduledTask}
use aurora_client.Client.Restarter.{
  RestartSettings, Answer, watched, aborted, waiting, roll, restart,
}

pub repeat {ℓ} : {A : Type ℓ} → ℕ → A → List A
repeat zero x = []
repeat (suc n) x = x ∷ repeat n x

module _ (s : RestartSettings) (i : ℕ) (positive : 0 < s.batch_size) where
  abbrev just : List ℕ
  just = i ∷ []

  abbrev again : Answer
  again = watched (some just)

  whole : (n : ℕ) → 0 < n → (take n just ≡ just) × (drop n just ≡ [])
  unfolding take drop
  whole zero h = absurd (omega arith)
  whole (suc zero) h = (refl, refl)
  whole (suc (suc n)) h = (refl, refl)

  abbrev after : ℕ → FailureThreshold
  after c = record {
    max_per_instance_failures = s.max_per_instance_failures;
    max_total_failures = s.max_total_failures;
    failures_by_instance = (i, c) ∷ [];
  }

  count_after : (c : ℕ) → (update_failure_counts (after c) just).0 ≡ after (c + 1)
  unfolding update_failure_counts get put
  count_after c = ground (arith, ==_iff i i)

  within : (c : ℕ) → 0 < s.max_total_failures → is_failed_update (after c) ≡ false
  unfolding is_failed_update exceeded_count
  within c h = ground arith

  keeps_on :
      (n c : ℕ)
      → 0 < s.max_total_failures
      → roll s (after c) just (repeat n again) ≡ (repeat (suc n) just, waiting)
  unfolding roll repeat
  keeps_on zero c h = ground (arith, within c h, whole s.batch_size positive)
  keeps_on (suc n) c h =
      ground (arith, within c h, whole s.batch_size positive, count_after c, keeps_on n (c + 1) h)

  abbrev fresh : FailureThreshold
  fresh = new_threshold s.max_per_instance_failures s.max_total_failures

  fresh_within : is_failed_update fresh ≡ false
  unfolding is_failed_update exceeded_count
  fresh_within = ground arith

  count_fresh : (update_failure_counts fresh just).0 ≡ after 1
  unfolding update_failure_counts get put
  count_fresh = ground arith

  -- One instance that always fails is restarted again and again without end where
  -- `max_total_failures` is at least 1, however often it has failed and whatever
  -- `max_per_instance_failures` says.
  pub restart_forever :
      (tasks : List ScheduledTask) (n : ℕ)
      → 0 < s.max_total_failures
      → restart s (some tasks) just (repeat n again) ≡ (repeat (suc n) just, waiting)
  unfolding restart roll repeat
  restart_forever tasks zero h = ground (arith, fresh_within, whole s.batch_size positive)
  restart_forever tasks (suc n) h =
      ground (arith, fresh_within, count_fresh, whole s.batch_size positive, keeps_on n 1 h)

  over_limit :
      (c : ℕ)
      → s.max_total_failures ≡ 0
      → is_failed_update (after c) ≡ ltb s.max_per_instance_failures c
  unfolding is_failed_update exceeded_count
  over_limit c h = ground arith

  gives_up :
      (n c : ℕ)
      → s.max_total_failures ≡ 0
      → c + n ≡ s.max_per_instance_failures + 1
      → roll s (after c) just (repeat n again) ≡ (repeat n just, aborted)
  unfolding roll repeat
  gives_up zero c h k = ground (arith, over_limit c h)
  gives_up (suc n) c h k = ground (
    arith,
    over_limit c h,
    whole s.batch_size positive,
    count_after c,
    gives_up n (c + 1) h (omega arith),
  )

  -- Where `max_total_failures` is 0, an instance that always fails is restarted once more than
  -- `max_per_instance_failures` says, and then the restart is aborted.
  pub restart_aborts :
      (tasks : List ScheduledTask)
      → s.max_total_failures ≡ 0
      → restart s (some tasks) just (repeat (suc s.max_per_instance_failures) again)
        ≡ (repeat (suc s.max_per_instance_failures) just, aborted)
  unfolding restart roll repeat
  restart_aborts tasks h =
      let n = s.max_per_instance_failures in
      ground (
        arith,
        fresh_within,
        count_fresh,
        whole s.batch_size positive,
        gives_up n 1 h (omega arith),
      )
