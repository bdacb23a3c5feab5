-- ===== src/Thermos/Runner/Healthy.antt =====
-- When a plan is deadlocked and a task unhealthy.
use aurora_client.Base.{
  ℕ, ◌≡◌, refl, ◌∙◌, true, false, ◌||◌, List, [], ◌∷◌, ◌++◌, arith, is_nil, string_eq, ok, ==_iff,
  Bool-cases, inl, inr, nat_beq, length, leb, length-take_le, ◌+◌, ◌-◌,
}
use aurora_client.Base.Int.{ℤ}
use aurora_client.Base.Sets.{member, member-all, member-union, member-append, set_eq-member, union}
use aurora_client.Thermos.Planner
use aurora_client.Thermos.Planner.{Name, Error, runnable}
use aurora_client.Thermos.Planner.Progress.{stuck-is_complete}
use aurora_client.Thermos.TaskPlanner.{TaskPlanner, runnable_at, waiting_at, filter_ok, is_complete}
use aurora_client.Thermos.TaskPlanner.Throttle.{runnable_at_split, runnable-known}
use aurora_client.Thermos.TaskPlanner.Sound.{IsSound}
use aurora_client.Thermos.TaskPlanner.Start.{is_complete_iff}
use aurora_client.Thermos.Runner.{Runner, deadlocked, is_healthy, pick_processes}

not_nil : (k : Name) (xs : List Name) → member k xs ≡ true → is_nil xs ≡ false
unfolding member
not_nil k [] m = cc
not_nil k (x ∷ xs) m = refl

nil_or_member : (xs : List Name) → is_nil xs ≡ false → (k : Name) × (member k xs ≡ true)
unfolding member
nil_or_member [] e = cc
nil_or_member (x ∷ xs) e = (x, ground (arith, ==_iff x x))

busy :
    (k : Name) (running ready later : List Name)
    → (member k ready || member k later) ≡ true
    → is_nil (running ++ ready ++ later) ≡ false
busy k running ready later m =
    not_nil k (running ++ ready ++ later)
      (ground (arith, member-append (running ++ ready) later k, member-append running ready k))

nil_list : (xs : List Name) → is_nil xs ≡ true → xs ≡ []
nil_list [] e = refl
nil_list (x ∷ xs) e = cc

module _ (t : TaskPlanner) (v : IsSound t) (none_failed : is_nil t.planner.failed ≡ true) where
  complete :
      is_nil t.planner.running ≡ true → is_nil (runnable t.planner) ≡ true → is_complete t ≡ true
  unfolding Planner.is_complete
  complete idle stuck =
      is_complete_iff t v
      ∙ member-all
          (λ k. member k t.planner.finished || member k t.planner.failed || member k t.ephemerals)
          t.planner.processes
          (λ k m. ground (
            arith,
            set_eq-member (union t.planner.finished t.planner.failed) t.planner.processes k
                (stuck-is_complete t.planner v.valid none_failed idle stuck),
            member-union t.planner.finished t.planner.failed k,
          ))

  offered :
      (now : ℤ) (k : Name) → member k (runnable t.planner) ≡ true → deadlocked t now ≡ ok false
  unfolding deadlocked
  offered now k m =
      let (a, h) = v.attributed k (runnable-known t k m) in
      let (ready, later, e, e', in_ready, in_later) = runnable_at_split t now v.attributed k a h in
      let some_of : (member k ready || member k later) ≡ true =
        ground (arith, in_ready, in_later) in
      ground (arith, e, e', busy k t.planner.running ready later some_of)

  -- While no process of a sound plan has failed, the plan is not deadlocked: something runs, is
  -- runnable or waits for its time, or the plan is complete.
  pub deadlocked-free : (now : ℤ) → deadlocked t now ≡ ok false
  unfolding deadlocked runnable_at waiting_at filter_ok
  deadlocked-free now = elim (Bool-cases (is_nil (runnable t.planner))) [
    | inl stuck ↦
        let empty : runnable t.planner ≡ [] = nil_list (runnable t.planner) stuck in
        elim (Bool-cases (is_nil t.planner.running)) [
          | inl idle ↦
              let idle' : t.planner.running ≡ [] = nil_list t.planner.running idle in
              ground (arith, empty, idle', complete idle stuck)
          | inr runs ↦
              let (k, m) = nil_or_member t.planner.running runs in
              ground (
                arith,
                empty,
                not_nil k (t.planner.running ++ [])
                    (ground (arith, member-append t.planner.running [] k)),
              )
        ]
    | inr some_runnable ↦
        let (k, m) = nil_or_member (runnable t.planner) some_runnable in offered now k m
  ]

-- A task is healthy while no process of its regular plan has failed.
pub is_healthy-free :
    (r : Runner) (now : ℤ)
    → IsSound r.regular_plan
    → is_nil r.regular_plan.planner.failed ≡ true
    → is_healthy r now ≡ ok true
unfolding is_healthy
is_healthy-free r now v none_failed = ground (
  arith,
  deadlocked-free r.regular_plan v none_failed now,
  no_length r.regular_plan.planner.failed none_failed,
)
  where
    no_length : (xs : List Name) → is_nil xs ≡ true → length xs ≡ 0
    no_length [] e = refl
    no_length (x ∷ xs) e = cc

-- With a limit on concurrency, the picked processes and those that run already are within the
-- limit together, or nothing is picked.
pub length-pick_processes :
    (max_concurrency : ℕ) (running runnables : List Name)
    → nat_beq max_concurrency 0 ≡ false
    → leb
          (length running + length (pick_processes max_concurrency running runnables))
          max_concurrency
        || nat_beq (length (pick_processes max_concurrency running runnables)) 0
      ≡ true
unfolding pick_processes
length-pick_processes max_concurrency running runnables limited =
    ground (arith, limited, length-take_le (max_concurrency - length running) runnables)
