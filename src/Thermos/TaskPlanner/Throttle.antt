-- ===== src/Thermos/TaskPlanner/Throttle.antt =====
-- `runnable_at` and `waiting_at` split the runnable processes by `min_duration`.
use aurora_client.Base.{
  ◌≡◌, refl, Bool, true, not, ◌&&◌, none, some, List, [], ◌∷◌, arith, string_eq, if◌then◌else◌,
  Result, ok, Result-cases, inl, inr, Option-cases, ==_iff,
}
use aurora_client.Base.Int.{ℤ, ◌+ℤ◌, ◌≤ℤ◌, -ℤ_parts, +ℤ_parts, pos, ◌-ℤ◌, leb_ℤ}
use aurora_client.Base.Sets.{member}
use aurora_client.Base.Dicts.{get, put, get-put_self}
use aurora_client.Thermos.Planner.{Name, Error, runnable}
use aurora_client.Thermos.Planner.Runnable.{member-runnable}
use aurora_client.Thermos.TaskPlanner.{
  Outcome, TaskPlanner, TaskAttributes, get_wait, is_ready, is_waiting, filter_ok, runnable_at,
  waiting_at, add_failure, failure_transition, add_success, success_transition, lost,
  lost_transition,
}

-- Without an error `filter_ok` keeps what passes the test.
module _ (test : Name → Result Error Bool) where
  pub filter_ok-member :
      (ks kept : List Name) (k : Name) (b : Bool)
      → filter_ok test ks ≡ ok kept
      → test k ≡ ok b
      → member k kept ≡ (b && member k ks)
  unfolding filter_ok member
  filter_ok-member [] kept k b e h = ground arith
  filter_ok-member (x ∷ xs) kept k b e h = elim (Result-cases (filter_ok test xs)) [
    | inl (rest, e') ↦ ground (arith, filter_ok-member xs rest k b e' h, ==_iff x k)
    | inr (er, e') ↦ ground arith
  ]

  filter_ok_total :
      (ks : List Name)
      → ((k : Name) → member k ks ≡ true → (b : Bool) × (test k ≡ ok b))
      → (kept : List Name) × (filter_ok test ks ≡ ok kept)
  unfolding filter_ok member
  filter_ok_total [] h = ([], refl)
  filter_ok_total (x ∷ xs) h =
      let (rest, e) = filter_ok_total xs (λ k m. h k (ground arith)) in
      let (b, e') = h x (ground (arith, ==_iff x x)) in ((if b then x ∷ rest else rest), rw (e', e))

-- Every process that could be runnable has attributes.
abbrev pub Attributed : TaskPlanner → Type 0
Attributed t =
    (k : Name)
    → member k t.planner.processes ≡ true
    → (a : TaskAttributes) × (get t.attributes k ≡ some a)

-- The process has not ended before, or has been down for `min_duration`.
abbrev pub rested : TaskPlanner → TaskAttributes → ℤ → Name → Bool
rested t a timestamp k = elim (get t.last_terminal k) [
  | none ↦ true
  | some last ↦ leb_ℤ (a.min_duration +ℤ last) timestamp
]

wait_over : (m l ts : ℤ) → leb_ℤ (m -ℤ (ts -ℤ l)) (pos 0) ≡ leb_ℤ (m +ℤ l) ts
wait_over m l ts = ground (arith, -ℤ_parts m (ts -ℤ l), -ℤ_parts ts l, +ℤ_parts m l)

is_ready_lem :
    (t : TaskPlanner) (timestamp : ℤ) (k : Name) (a : TaskAttributes)
    → get t.attributes k ≡ some a
    → is_ready t timestamp k ≡ ok (rested t a timestamp k)
unfolding is_ready get_wait
is_ready_lem t timestamp k a e = elim (Option-cases (get t.last_terminal k)) [
  | inl never ↦ ground arith
  | inr (last, ended) ↦ ground (arith, wait_over a.min_duration last timestamp)
]

is_waiting_lem :
    (t : TaskPlanner) (timestamp : ℤ) (k : Name) (a : TaskAttributes)
    → get t.attributes k ≡ some a
    → is_waiting t timestamp k ≡ ok (not (rested t a timestamp k))
unfolding is_waiting
is_waiting_lem t timestamp k a e = rw (is_ready_lem t timestamp k a e)

pub runnable-known :
    (t : TaskPlanner) (k : Name)
    → member k (runnable t.planner) ≡ true
    → member k t.planner.processes ≡ true
runnable-known t k m = ground (arith, member-runnable t.planner k)

-- With attributes for every process neither query raises, and together they split the processes
-- that the inner planner offers: those that are rested are runnable, the others wait.
pub runnable_at_split :
    (t : TaskPlanner) (timestamp : ℤ)
    → Attributed t
    → (k : Name) (a : TaskAttributes) → get t.attributes k ≡ some a
    → (now later : List Name) × (runnable_at t timestamp ≡ ok now)
      × (waiting_at t timestamp ≡ ok later)
      × (member k now ≡ (rested t a timestamp k && member k (runnable t.planner)))
      × (member k later ≡ (not (rested t a timestamp k) && member k (runnable t.planner)))
unfolding runnable_at waiting_at
runnable_at_split t timestamp known k a h =
    let (now, e) = filter_ok_total (is_ready t timestamp) (runnable t.planner) (λ k m.
      let (a, h) = known k (runnable-known t k m) in
      (rested t a timestamp k, is_ready_lem t timestamp k a h)) in
    let (later, e') = filter_ok_total (is_waiting t timestamp) (runnable t.planner) (λ k m.
      let (a, h) = known k (runnable-known t k m) in
      (not (rested t a timestamp k), is_waiting_lem t timestamp k a h)) in
    (
      now,
      later,
      e,
      e',
      filter_ok-member (is_ready t timestamp) (runnable t.planner) now k (rested t a timestamp k) e
          (is_ready_lem t timestamp k a h),
      filter_ok-member (is_waiting t timestamp) (runnable t.planner) later k
          (not (rested t a timestamp k)) e' (is_waiting_lem t timestamp k a h),
    )

pub data Report : Type 0 where
  failure success loss : Report

unfoldable pub report : Report → TaskPlanner → Name → ℤ → Outcome
report failure t k now = add_failure t k now
report success t k now = add_success t k now
report loss t k now = lost t k now

report_keeps :
    (c : Report) (t : TaskPlanner) (k : Name) (now : ℤ)
    → ((report c t k now).0.last_terminal ≡ put t.last_terminal k now)
      × ((report c t k now).0.attributes ≡ t.attributes)
unfolding report add_failure failure_transition add_success success_transition lost lost_transition
report_keeps failure t k now = ground arith
report_keeps success t k now = ground arith
report_keeps loss t k now = ground arith

-- After any report on a process at `now`, accepted or not, the process is not runnable again
-- before `now` plus its `min_duration`.
pub report_throttles :
    (c : Report) (t : TaskPlanner) (k : Name) (a : TaskAttributes) (now timestamp : ℤ)
    (ready : List Name)
    → get t.attributes k ≡ some a
    → runnable_at (report c t k now).0 timestamp ≡ ok ready
    → member k ready ≡ true
    → a.min_duration +ℤ now ≤ℤ timestamp
unfolding runnable_at
report_throttles c t k a now timestamp ready h e m =
    let t' = (report c t k now).0 in
    let known : get t'.attributes k ≡ some a = rw ((report_keeps c t k now).1) h in
    let last : get t'.last_terminal k ≡ some now =
      rw ((report_keeps c t k now).0) (get-put_self t.last_terminal k now) in
    ground (
      arith,
      last,
      filter_ok-member (is_ready t' timestamp) (runnable t'.planner) ready k
          (rested t' a timestamp k) e (is_ready_lem t' timestamp k a known),
    )
