-- ===== src/Thermos/Planner/Phases.antt =====
-- The state machine of one process inside `Planner`.
use aurora_client.Base.{
  ◌≡◌, ◌≢◌, Bool, true, false, ◌||◌, arith, string_eq, if◌then◌else◌, Result, ok, err, ==_iff,
}
use aurora_client.Base.Sets.{member, member-add, member-discard}
use aurora_client.Thermos.Planner.{
  Name, Planner, Error, Call, resets, runs, finishes, fails, runnable, reset, set_running,
  set_finished, set_failed, apply,
}
use aurora_client.Thermos.Planner.Runnable.{member-runnable}
use aurora_client.Thermos.Planner.Invariant.{IsValid}

pub data Phase : Type 0 where
  waiting running finished failed : Phase

unfoldable pub phase : Planner → Name → Phase
phase p k =
    if member k p.failed
    then failed
    else if member k p.finished
    then finished
    else if member k p.running
    then running
    else waiting

-- The arrows of the diagram above `TaskPlanner`, as far as `Planner` has them.
abbrev pub moves : Phase → Phase → Bool
moves waiting running = true
moves running running = true
moves running waiting = true
moves running finished = true
moves running failed = true
moves _ _ = false

abbrev pub subject : Call → Name
subject (resets k) = k
subject (runs k) = k
subject (finishes k) = k
subject (fails k) = k

abbrev pub is_running : Phase → Bool
is_running running = true
is_running _ = false

abbrev pub accepts : Planner → Call → Bool
accepts p (runs k) = is_running (phase p k) || member k (runnable p)
accepts p (resets k) = is_running (phase p k)
accepts p (finishes k) = is_running (phase p k)
accepts p (fails k) = is_running (phase p k)

abbrev pub is_ok : Result Error Planner → Bool
is_ok (ok _) = true
is_ok (err _) = false

module _ (p : Planner) (v : IsValid p) where
  apply-moves :
      (c : Call) {q : Planner}
      → apply p c ≡ ok q
      → moves (phase p (subject c)) (phase q (subject c)) ≡ true
  unfolding apply reset set_running set_finished set_failed phase
  apply-moves (resets k) e = ground (arith, member-discard k p.running k, ==_iff k k)
  apply-moves (runs k) e = ground (arith, member-add k p.running k, member-runnable p k, ==_iff k k)
  apply-moves (finishes k) e =
      ground
        (arith, member-discard k p.running k, member-add k p.finished k, ==_iff k k, v.run_fin k)
  apply-moves (fails k) e =
      ground
        (arith, member-discard k p.running k, member-add k p.failed k, ==_iff k k, v.run_fail k)

  apply-others :
      (c : Call) {q : Planner} (j : Name) → apply p c ≡ ok q → subject c ≢ j → phase q j ≡ phase p j
  unfolding apply reset set_running set_finished set_failed phase
  apply-others (resets k) j e h =
      ground (arith, member-discard k p.running j, ==_iff k j, ==_iff j k)
  apply-others (runs k) j e h = ground (arith, member-add k p.running j, ==_iff k j)
  apply-others (finishes k) j e h =
      ground
        (arith, member-discard k p.running j, member-add k p.finished j, ==_iff k j, ==_iff j k)
  apply-others (fails k) j e h =
      ground (arith, member-discard k p.running j, member-add k p.failed j, ==_iff k j, ==_iff j k)

  -- On a valid planner a call is accepted exactly when its process is running, or, for
  -- `set_running`, runnable as well. Every other call raises.
  pub apply-accepts : (c : Call) → is_ok (apply p c) ≡ accepts p c
  unfolding apply reset set_running set_finished set_failed phase
  apply-accepts (resets k) = ground (arith, v.run_fin k, v.run_fail k)
  apply-accepts (runs k) = ground (arith, v.run_fin k, v.run_fail k, member-runnable p k)
  apply-accepts (finishes k) = ground (arith, v.run_fin k, v.run_fail k)
  apply-accepts (fails k) = ground (arith, v.run_fin k, v.run_fail k)

-- An accepted call moves its process along an arrow of the diagram and leaves the phase of every
-- other process as it was.
pub apply-Phase :
    (p : Planner) (c : Call) {q : Planner}
    → IsValid p
    → apply p c ≡ ok q
    → (j : Name) → subject c ≢ j
    → (moves (phase p (subject c)) (phase q (subject c)) ≡ true) × (phase q j ≡ phase p j)
apply-Phase p c v e j apart = (apply-moves p v c e, apply-others p v c j e apart)
