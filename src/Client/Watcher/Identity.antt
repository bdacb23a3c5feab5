-- ===== src/Client/Watcher/Identity.antt =====
-- `StatusHealthCheck` holds an instance to the first task that it saw running.
use aurora_client.Base.{
  ℕ, String, ◌≡◌, Bool, true, ◌&&◌, Option, none, some, List, [], ◌∷◌, arith, if◌then◌else◌, ==_iff,
  ◌==◌, nat_eq, string_eq, Option-cases, inl, inr,
}
use aurora_client.Base.Dicts.{Dict, get, put, get-put}
use aurora_client.Client.Watcher.{ScheduledTask, is_running, health}

-- The state after the tasks of a history have been checked.
unfoldable pub checked : Dict ℕ String → List ScheduledTask → Dict ℕ String
checked ids [] = ids
checked ids (t ∷ ts) = checked (health ids t).0 ts

-- The id of the first task of an instance that was seen running.
unfoldable pub first_running : ℕ → List ScheduledTask → Option String
first_running k [] = none
first_running k (t ∷ ts) =
    if is_running t.status && (t.instance_id == k) then some t.task_id else first_running k ts

abbrev pub expects : Option String → String → Bool
expects none id = true
expects (some known) id = id == known

abbrev or_else : Option String → Option String → Option String
or_else none b = b
or_else (some a) b = some a

checked-get :
    (ts : List ScheduledTask) (ids : Dict ℕ String) (k : ℕ)
    → get (checked ids ts) k ≡ or_else (get ids k) (first_running k ts)
unfolding checked first_running health
checked-get [] ids k = elim (Option-cases (get ids k)) [
  | inl e ↦ ground arith
  | inr (id, e) ↦ ground arith
]
checked-get (t ∷ ts) ids k = elim (Option-cases (get ids t.instance_id)) [
  | inl e ↦ ground (
    arith,
    checked-get ts ids k,
    checked-get ts (put ids t.instance_id t.task_id) k,
    get-put ids t.instance_id t.task_id k,
    ==_iff t.instance_id k,
  )
  | inr (id, e) ↦ ground (arith, checked-get ts ids k, ==_iff t.instance_id k)
]

-- After any history of checks a task is healthy exactly when it is RUNNING and has the id of the
-- first task of its instance that was seen running, if there was one.
pub checked-health :
    (ts : List ScheduledTask) (t : ScheduledTask)
    → (health (checked [] ts) t).1
      ≡ (is_running t.status && expects (first_running t.instance_id ts) t.task_id)
unfolding health get
checked-health ts t = elim (Option-cases (first_running t.instance_id ts)) [
  | inl e ↦ ground (arith, checked-get ts [] t.instance_id)
  | inr (id, e) ↦ ground (arith, checked-get ts [] t.instance_id)
]
