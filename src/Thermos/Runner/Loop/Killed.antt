-- ===== src/Thermos/Runner/Loop/Killed.antt =====
-- How a killed task ends.
use aurora_client.Base.{
  ◌≤◌, ◌≡◌, refl, Bool, true, false, some, List, [], ◌∷◌, arith, length, ok, Bool-cases, inl, inr,
}
use aurora_client.Base.Int.{ℤ, pos, leb_ℤ}
use aurora_client.Thermos.Ckpt.{
  TaskState, active, cleaning, finalizing, succeeded, task_failed, task_killed, task_lost,
}
use aurora_client.Thermos.Runner.{transition_to, terminal_state, finalization_remaining}
use aurora_client.Thermos.Runner.Loop.{Machine, on_task, follow, may_force, begin_cleaning, kill}

-- A state from which the task goes on.
abbrev pub is_going : TaskState → Bool
is_going active = true
is_going cleaning = true
is_going finalizing = true
is_going _ = false

-- At the end the task stays.
follow_end :
    (m : Machine) (status : TaskState) (nows : List ℤ)
    → may_force status ≡ true
    → follow m status nows ≡ ok status
unfolding follow transition_to
follow_end m status [] f = refl
follow_end m active (now ∷ nows) f = cc
follow_end m cleaning (now ∷ nows) f = cc
follow_end m finalizing (now ∷ nows) f = cc
follow_end m succeeded (now ∷ nows) f = refl
follow_end m task_failed (now ∷ nows) f = refl
follow_end m task_killed (now ∷ nows) f = refl
follow_end m task_lost (now ∷ nows) f = refl

from_finalizing :
    (m : Machine) (status : TaskState) (nows : List ℤ)
    → may_force status ≡ true
    → m.runner.forced_state ≡ some status
    → 1 ≤ length nows
    → follow m finalizing nows ≡ ok status
unfolding follow transition_to terminal_state
from_finalizing m status [] f set h = absurd (omega arith)
from_finalizing m status (now ∷ nows) f set h =
    ground (arith, set, follow_end (on_task m now status).0 status nows f)

from_cleaning :
    (m : Machine) (status : TaskState) (nows : List ℤ)
    → may_force status ≡ true
    → m.runner.forced_state ≡ some status
    → 2 ≤ length nows
    → follow m cleaning nows ≡ ok status
unfolding follow transition_to terminal_state on_task
from_cleaning m status [] f set h = absurd (omega arith)
from_cleaning m status (now ∷ nows) f set h =
    elim (Bool-cases (leb_ℤ (finalization_remaining m.runner now) (pos 0))) [
      | inl late ↦ ground (arith, set, follow_end (on_task m now status).0 status nows f)
      | inr early ↦
          let m' = (on_task m now finalizing).0 in ground (arith, from_finalizing m' status nows f)
    ]

-- A task that is killed while it is not terminal ends in the state that the kill names, KILLED or
-- LOST, after two transitions at most, whenever they come: nothing on the way raises.
pub kill_ends :
    (m m' : Machine) (state state' : TaskState) (now preemption_wait : ℤ) (status : TaskState)
    (nows : List ℤ)
    → is_going state ≡ true
    → kill m state now preemption_wait status ≡ some (m', state')
    → 2 ≤ length nows
    → follow m' state' nows ≡ ok status
unfolding kill begin_cleaning on_task
kill_ends m m' active state' now wait status nows g e h =
    ground (arith, from_cleaning m' status nows)
kill_ends m m' cleaning state' now wait status nows g e h =
    ground (arith, from_cleaning m' status nows)
kill_ends m m' finalizing state' now wait status nows g e h =
    ground (arith, from_finalizing m' status nows)
kill_ends m m' succeeded state' now wait status nows g e h = cc
kill_ends m m' task_failed state' now wait status nows g e h = cc
kill_ends m m' task_killed state' now wait status nows g e h = cc
kill_ends m m' task_lost state' now wait status nows g e h = cc
