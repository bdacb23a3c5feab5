-- ===== src/Thermos/TaskPlanner/Sound.antt =====
-- What every accepted call of `TaskPlanner` keeps.
use aurora_client.Base.{
  ◌+◌, ◌≡◌, refl, Bool, true, false, not, ◌||◌, Option, none, some, arith, string_eq, if◌then◌else◌,
  Result, ok, err, ◌>>=◌, ==_iff, ltb, nat_beq,
}
use aurora_client.Base.Int.{ℤ}
use aurora_client.Base.Sets.{member, member-add}
use aurora_client.Base.Dicts.{get, get-put}
use aurora_client.Thermos.Planner
use aurora_client.Thermos.Planner.{
  Name, Planner, Error, Call, resets, runs, finishes, fails, key_error, Dependencies,
}
use aurora_client.Thermos.Planner.Invariant.{IsValid, apply-IsValid}
use aurora_client.Thermos.TaskPlanner.{
  in_planner, or_raise, TaskPlanner, TaskAttributes, Outcome, count, set_running, set_failed,
  add_failure, failure_transition, add_success, success_transition, lost, lost_transition,
}
use aurora_client.Thermos.TaskPlanner.Throttle.{Attributed, Report, failure, success, loss, report}

-- The process may still fail without ending: no limit, or failures under it.
abbrev pub under_limit : TaskPlanner → TaskAttributes → Name → Bool
under_limit t a k = nat_beq a.max_failures 0 || ltb (count t.failures k) a.max_failures

pub record IsSound (t : TaskPlanner) : Type 0 where
  pub valid : IsValid t.planner
  pub attributed : Attributed t
  pub known_ephemerals :
      (k : Name) → member k t.ephemerals ≡ true → member k t.planner.processes ≡ true
  -- a daemon finishes only if it is ephemeral
  pub daemons :
      (k : Name) (a : TaskAttributes)
      → get t.attributes k ≡ some a
      → member k t.planner.finished ≡ true
      → (not a.is_daemon || a.is_ephemeral) ≡ true
  -- a process that is neither finished nor failed has failures left
  pub budget :
      (k : Name) (a : TaskAttributes)
      → get t.attributes k ≡ some a
      → member k t.planner.finished ≡ false
      → member k t.planner.failed ≡ false
      → under_limit t a k ≡ true

pub data TaskCall : Type 0 where
  launches pins : Name → TaskCall
  reports : Report → Name → ℤ → TaskCall

unfoldable pub step : TaskPlanner → TaskCall → Outcome
step t (launches k) = set_running t k
step t (pins k) = set_failed t k
step t (reports c k now) = report c t k now

if_ind {ℓ κ} :
    {A : Type ℓ} (P : A → Type κ) (b : Bool) {x y : A} → P x → P y → P (if b then x else y)
if_ind P true h k = h
if_ind P false h k = k

module _ (t : TaskPlanner) (v : IsValid t.planner) where
  -- The result of a call of the inner planner is valid, and so is what stays if it raises.
  abbrev Fine : Result Error Planner → Type 0
  Fine r = (q : Planner) → r ≡ ok q → IsValid q

  fine : (c : Call) → Fine (Planner.apply t.planner c)
  fine c q e = apply-IsValid t.planner c v e

  Fine-err : (e : Error) → Fine (err e)
  Fine-err e q h = cc

  in_planner-IsValid :
      (s : TaskPlanner) (r : Result Error Planner)
      → s.planner ≡ t.planner
      → Fine r
      → IsValid (in_planner s r).0.planner
  in_planner-IsValid s (ok q) same f = f q refl
  in_planner-IsValid s (err e) same f = rw same v

  Fine-bind :
      (o : Option TaskAttributes) (f : TaskAttributes → Result Error Planner)
      → ((a : TaskAttributes) → Fine (f a))
      → Fine (or_raise o key_error >>= f)
  Fine-bind none f h = Fine-err key_error
  Fine-bind (some a) f h = h a

  step-IsValid : (c : TaskCall) → IsValid (step t c).0.planner
  unfolding step set_running set_failed report add_failure failure_transition add_success
      success_transition lost lost_transition Planner.apply
  step-IsValid (launches k) =
      in_planner-IsValid t (Planner.set_running t.planner k) refl (fine (runs k))
  step-IsValid (pins k) =
      in_planner-IsValid t (Planner.set_failed t.planner k) refl (fine (fails k))
  step-IsValid (reports failure k now) =
      if_ind (λ (o : Outcome). IsValid o.0.planner) _
        (in_planner-IsValid _ (Planner.set_failed t.planner k) refl (fine (fails k)))
        (in_planner-IsValid _ _ refl (
          Fine-bind (get t.attributes k) _ λ a.
            if_ind Fine _ (fine (resets k))
              (if_ind Fine a.is_ephemeral (fine (finishes k)) (fine (fails k)))))
  step-IsValid (reports success k now) =
      if_ind (λ (o : Outcome). IsValid o.0.planner) _
        (in_planner-IsValid _ (Planner.set_failed t.planner k) refl (fine (fails k)))
        (in_planner-IsValid _ _ refl (
          Fine-bind (get t.attributes k) _
            λ a. if_ind Fine (not a.is_daemon) (fine (finishes k)) (fine (resets k))))
  step-IsValid (reports loss k now) =
      in_planner-IsValid _ _ refl (if_ind Fine _ (fine (fails k)) (fine (resets k)))

module _ (t : TaskPlanner) (v : IsSound t) where
  step-daemons :
      (c : TaskCall) (j : Name) (a : TaskAttributes)
      → get (step t c).0.attributes j ≡ some a
      → member j (step t c).0.planner.finished ≡ true
      → (not a.is_daemon || a.is_ephemeral) ≡ true
  unfolding step set_running set_failed report add_failure failure_transition add_success
      success_transition lost lost_transition Planner.set_finished Planner.set_failed
      Planner.set_running Planner.reset
  step-daemons (launches k) j a h m = ground (arith, v.daemons j a)
  step-daemons (pins k) j a h m = ground (arith, v.daemons j a)
  step-daemons (reports failure k now) j a h m =
      ground (arith, v.daemons j a, member-add k t.planner.finished j, ==_iff k j)
  step-daemons (reports success k now) j a h m =
      ground (arith, v.daemons j a, member-add k t.planner.finished j, ==_iff k j)
  step-daemons (reports loss k now) j a h m = ground (arith, v.daemons j a)

  step-budget :
      (c : TaskCall) (j : Name) (a : TaskAttributes)
      → (step t c).1 ≡ none
      → get (step t c).0.attributes j ≡ some a
      → member j (step t c).0.planner.finished ≡ false
      → member j (step t c).0.planner.failed ≡ false
      → under_limit (step t c).0 a j ≡ true
  unfolding step set_running set_failed report add_failure failure_transition add_success
      success_transition lost lost_transition Planner.set_finished Planner.set_failed
      Planner.set_running Planner.reset
  step-budget (launches k) j a e h m n = ground (arith, v.budget j a)
  step-budget (pins k) j a e h m n =
      ground (arith, v.budget j a, member-add k t.planner.failed j, ==_iff k j)
  step-budget (reports failure k now) j a e h m n = ground (
    arith,
    v.budget j a,
    member-add k t.planner.failed j,
    member-add k t.planner.finished j,
    ==_iff k j,
    get-put t.failures k (count t.failures k + 1) j,
  )
  step-budget (reports success k now) j a e h m n = ground (
    arith,
    v.budget j a,
    member-add k t.planner.failed j,
    member-add k t.planner.finished j,
    ==_iff k j,
  )
  step-budget (reports loss k now) j a e h m n =
      ground (arith, v.budget j a, member-add k t.planner.failed j, ==_iff k j)

  step_fixed :
      (c : TaskCall)
      → ((step t c).0.attributes ≡ t.attributes)
        × ((step t c).0.planner.processes ≡ t.planner.processes)
        × ((step t c).0.ephemerals ≡ t.ephemerals)
  unfolding step set_running set_failed report add_failure failure_transition add_success
      success_transition lost lost_transition Planner.set_finished Planner.set_failed
      Planner.set_running Planner.reset
  step_fixed (launches k) = ground arith
  step_fixed (pins k) = ground arith
  step_fixed (reports failure k now) = ground arith
  step_fixed (reports success k now) = ground arith
  step_fixed (reports loss k now) = ground arith

-- A call that does not raise keeps the planner sound: the inner planner valid, attributes for
-- every process, no finished daemon that is not ephemeral, and failures left for every process
-- that is neither finished nor failed.
pub step-IsSound :
    (t : TaskPlanner) (c : TaskCall) → IsSound t → (step t c).1 ≡ none → IsSound (step t c).0
step-IsSound t c v e = record {
  valid = step-IsValid t v.valid c;
  attributed =
      λ k m. let (attrs, procs, _) = step_fixed t v c in rw attrs (v.attributed k (rw procs at m));
  known_ephemerals = λ k m.
      let (_, procs, eph) = step_fixed t v c in rw procs (v.known_ephemerals k (rw eph at m));
  daemons = λ k a. step-daemons t v c k a;
  budget = λ k a. step-budget t v c k a e;
}
