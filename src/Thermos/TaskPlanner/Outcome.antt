-- ===== src/Thermos/TaskPlanner/Outcome.antt =====
-- Where the three terminal reports leave a running process.
use aurora_client.Base.{
  ℕ, ◌+◌, ◌≡◌, true, not, ◌||◌, none, some, arith, string_eq, if◌then◌else◌, Result, ok, leb, ltb,
  nat_beq, ==_iff,
}
use aurora_client.Base.Int.{ℤ}
use aurora_client.Base.Sets.{member, add, discard, member-add, member-discard}
use aurora_client.Base.Dicts.{get, get-put_self}
use aurora_client.Thermos.Planner
use aurora_client.Thermos.Planner.{Name, Planner, Error}
use aurora_client.Thermos.Planner.Invariant.{IsValid}
use aurora_client.Thermos.Planner.Phases.{Phase, waiting, running, finished, failed, phase}
use aurora_client.Thermos.TaskPlanner.{
  TaskPlanner, TaskAttributes, Outcome, count, total_run_limit, has_reached_run_limit, add_failure,
  failure_transition, add_success, success_transition, lost, lost_transition,
}

module _ (p : Planner) (v : IsValid p) (k : Name) (r : phase p k ≡ running) where
  in_running : member k p.running ≡ true
  unfolding phase
  in_running = ground arith

  abbrev To : Phase → Result Error Planner → Type 0
  To f result = (q : Planner) × (result ≡ ok q) × (phase q k ≡ f)

  reset-To : To waiting (Planner.reset p k)
  unfolding Planner.reset phase
  reset-To = (
    record p { running = discard k p.running },
    ground (arith, v.run_fin k, v.run_fail k),
    ground (arith, v.run_fin k, v.run_fail k, member-discard k p.running k, ==_iff k k),
  )

  set_finished-To : To finished (Planner.set_finished p k)
  unfolding Planner.set_finished phase
  set_finished-To = (
    record p { running = discard k p.running; finished = add k p.finished },
    ground (arith, v.run_fin k, v.run_fail k),
    ground (arith, v.run_fin k, v.run_fail k, member-add k p.finished k, ==_iff k k),
  )

  set_failed-To : To failed (Planner.set_failed p k)
  unfolding Planner.set_failed phase
  set_failed-To = (
    record p { running = discard k p.running; failed = add k p.failed },
    ground (arith, v.run_fin k, v.run_fail k),
    ground (arith, v.run_fin k, v.run_fail k, member-add k p.failed k, ==_iff k k),
  )

-- The number of runs of a process that have ended.
abbrev pub runs : TaskPlanner → Name → ℕ
runs t k = count t.successes k + count t.failures k + count t.losses k

-- Where a failed run leads, with `n` failures so far, this one included.
abbrev pub after_failure : TaskAttributes → ℕ → Phase
after_failure a n =
    if nat_beq a.max_failures 0 || ltb n a.max_failures
    then waiting
    else if a.is_ephemeral
    then finished
    else failed

abbrev pub after_success : TaskAttributes → Phase
after_success a = if not a.is_daemon then finished else waiting

-- Past the limit on runs every report fails the process.
abbrev pub capped : ℕ → Phase → Phase
capped n f = if leb total_run_limit n then failed else f

abbrev pub EndsIn : Outcome → Name → Phase → Type 0
EndsIn o k f = (o.1 ≡ none) × (phase o.0.planner k ≡ f)

module _ (t : TaskPlanner) (v : IsValid t.planner) (k : Name) (r : phase t.planner k ≡ running)
    (a : TaskAttributes) (known : get t.attributes k ≡ some a) (now : ℤ) where
  add_failure-EndsIn :
      EndsIn
        (add_failure t k now)
        k
        (capped (runs t k + 1) (after_failure a (count t.failures k + 1)))
  unfolding add_failure failure_transition has_reached_run_limit
  add_failure-EndsIn =
      let (q1, e1, f1) = reset-To t.planner v k r in
      let (q2, e2, f2) = set_finished-To t.planner v k r in
      let (q3, e3, f3) = set_failed-To t.planner v k r in
      ground (arith, get-put_self t.failures k (count t.failures k + 1))

  add_success-EndsIn : EndsIn (add_success t k now) k (capped (runs t k + 1) (after_success a))
  unfolding add_success success_transition has_reached_run_limit
  add_success-EndsIn =
      let (q1, e1, f1) = reset-To t.planner v k r in
      let (q2, e2, f2) = set_finished-To t.planner v k r in
      let (q3, e3, f3) = set_failed-To t.planner v k r in
      ground (arith, get-put_self t.successes k (count t.successes k + 1))

  lost-EndsIn : EndsIn (lost t k now) k (capped (runs t k + 1) waiting)
  unfolding lost lost_transition has_reached_run_limit
  lost-EndsIn =
      let (q1, e1, f1) = reset-To t.planner v k r in
      let (q3, e3, f3) = set_failed-To t.planner v k r in
      ground (arith, get-put_self t.losses k (count t.losses k + 1))

-- For a running process of a valid planner with known attributes no report raises. A failure
-- leaves it waiting while its failures are under `max_failures` (0 means no limit), else finished
-- if it is ephemeral and failed if not; a success leaves it finished, or waiting if it is a
-- daemon; a loss leaves it waiting. The run that reaches the limit on runs fails it in each case.
pub report_outcomes :
    (t : TaskPlanner)
    → IsValid t.planner
    → (k : Name) → phase t.planner k ≡ running
    → (a : TaskAttributes) → get t.attributes k ≡ some a
    → (now : ℤ)
    → EndsIn
        (add_failure t k now)
        k
        (capped (runs t k + 1) (after_failure a (count t.failures k + 1)))
      × EndsIn (add_success t k now) k (capped (runs t k + 1) (after_success a))
      × EndsIn (lost t k now) k (capped (runs t k + 1) waiting)
report_outcomes t v k r a known now = (
  add_failure-EndsIn t v k r a known now,
  add_success-EndsIn t v k r a known now,
  lost-EndsIn t v k r a known now,
)
