-- ===== src/Thermos/Runner/Stages.antt =====
-- The way of a task through its stages.
use aurora_client.Base.{
  ℕ, ◌<◌, ◌≡◌, refl, Bool, true, false, Option, none, some, arith, ok, Bool-cases, Option-cases,
  Result-cases, inl, inr,
}
use aurora_client.Base.Int.{ℤ, pos, leb_ℤ}
use aurora_client.Thermos.Ckpt.{
  TaskState, active, cleaning, finalizing, succeeded, task_failed, task_killed, task_lost,
}
use aurora_client.Thermos.Runner.{
  Runner, finalization_remaining, is_healthy, terminal_state, transition_to,
}

-- The stages before a state that is reached at the end.
abbrev pub stages_left : TaskState → ℕ
stages_left active = 3
stages_left cleaning = 2
stages_left finalizing = 1
stages_left _ = 0

-- `kill` forces KILLED or LOST only.
abbrev pub is_forcible : Option TaskState → Bool
is_forcible none = true
is_forcible (some task_killed) = true
is_forcible (some task_lost) = true
is_forcible (some _) = false

forced_last : (state : TaskState) → is_forcible (some state) ≡ true → stages_left state ≡ 0
forced_last active f = cc
forced_last cleaning f = cc
forced_last finalizing f = cc
forced_last succeeded f = cc
forced_last task_failed f = cc
forced_last task_killed f = refl
forced_last task_lost f = refl

terminal_state-last :
    (r : Runner) (now : ℤ) (state : TaskState)
    → is_forcible r.forced_state ≡ true
    → terminal_state r now ≡ ok state
    → stages_left state ≡ 0
unfolding terminal_state
terminal_state-last r now state f e = elim (Option-cases r.forced_state) [
  | inl free ↦ elim (Result-cases (is_healthy r now)) [
    | inl (healthy, h) ↦ ground arith
    | inr (raised, h) ↦ ground arith
  ]
  | inr (forced, known) ↦ ground (arith, forced_last forced)
]

-- Each transition comes closer to a terminal state: the stages are passed in order, and none twice.
pub transition_to-closer :
    (r : Runner) (now : ℤ) (state next : TaskState)
    → is_forcible r.forced_state ≡ true
    → transition_to r now state ≡ some (ok next)
    → stages_left next < stages_left state
unfolding transition_to
transition_to-closer r now active next f e = ground arith
transition_to-closer r now cleaning next f e =
    elim (Bool-cases (leb_ℤ (finalization_remaining r now) (pos 0))) [
      | inl late ↦ ground (arith, terminal_state-last r now next f)
      | inr early ↦ ground arith
    ]
transition_to-closer r now finalizing next f e = ground (arith, terminal_state-last r now next f)
transition_to-closer r now succeeded next f e = cc
transition_to-closer r now task_failed next f e = cc
transition_to-closer r now task_killed next f e = cc
transition_to-closer r now task_lost next f e = cc
