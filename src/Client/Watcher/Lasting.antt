-- ===== src/Client/Watcher/Lasting.antt =====
-- What a round of visits leaves as it was.
use aurora_client.Base.{
  ℕ, ◌+◌, ◌≡◌, Bool, true, false, not, ◌||◌, none, some, List, [], ◌∷◌, arith, if◌then◌else◌, ok,
  ltb, ==_iff, ◌==◌, nat_eq, is_some, Option-cases, Bool-cases, Result-cases, inl, inr,
}
use aurora_client.Base.Dicts.{Dict, get, put, get-put, get_default}
use aurora_client.Client.Watcher.{
  ScheduledTask, Instance, set_healthy, States, born, set_instance_healthy, set_instance_unhealthy,
  is_finished, visit, visit_all,
}

-- No visit changes the state of the instance: it has finished, or has no running task.
abbrev pub is_idle : Dict ℕ ScheduledTask → States → ℕ → Bool
is_idle tasks states k = is_finished (get states k) || not (is_some (get tasks k))

put_apart :
    (states : States) (j k : ℕ) (i : Instance)
    → (j == k) ≡ false
    → get (put states j i) k ≡ get states k
put_apart states j k i apart = ground (arith, get-put states j i k)

unhealthy_apart :
    (states : States) (j k : ℕ)
    → (j == k) ≡ false
    → get (set_instance_unhealthy states j) k ≡ get states k
unfolding set_instance_unhealthy
unhealthy_apart states j k apart = elim (Option-cases (get states j)) [
  | inl new ↦ ground (
    arith,
    new,
    put_apart states j k (record { birthday = none; finished = true; healthy = false }) apart,
  )
  | inr (i, e) ↦ ground (arith, e, put_apart states j k (set_healthy i false) apart)
]

healthy_apart :
    (w : ℕ) (states next : States) (j now k : ℕ)
    → (j == k) ≡ false
    → set_instance_healthy w states j now ≡ ok next
    → get next k ≡ get states k
unfolding set_instance_healthy
healthy_apart w states next j now k apart h =
    elim (Option-cases (get_default states j (born now)).birthday) [
      | inl missing ↦ ground arith
      | inr (b, e) ↦
          let i =
            if ltb (b + w) now
            then set_healthy (get_default states j (born now)) true
            else get_default states j (born now) in
          ground (arith, e, put_apart states j k i apart)
    ]

module _ {H : Type 0} (check : H → ScheduledTask → H × Bool) (watch_secs : ℕ)
    (tasks : Dict ℕ ScheduledTask) (now : ℕ) where
  visit_keeps :
      (states : States) (h : H) (j k : ℕ) (next : States × H)
      → is_idle tasks states k ≡ true
      → visit check watch_secs tasks now states h j ≡ ok next
      → get next.0 k ≡ get states k
  unfolding visit
  visit_keeps states h j k next idle e = elim (Bool-cases (is_finished (get states j))) [
    | inl done ↦ ground arith
    | inr unset ↦ elim (Option-cases (get tasks j)) [
      | inl gone ↦ ground arith
      | inr (task, e') ↦ elim (Bool-cases (j == k)) [
        | inl same ↦ ground (arith, ==_iff j k)
        | inr apart ↦ elim (Result-cases (set_instance_healthy watch_secs states j now)) [
          | inl (s, e'') ↦ ground (
            arith,
            healthy_apart watch_secs states s j now k apart,
            unhealthy_apart states j k apart,
          )
          | inr (raised, e'') ↦ ground (arith, unhealthy_apart states j k apart)
        ]
      ]
    ]
  ]

  pub visit_all-keeps :
      (ks : List ℕ) (states : States) (h : H) (k : ℕ) (next : States × H)
      → is_idle tasks states k ≡ true
      → visit_all check watch_secs tasks now states h ks ≡ ok next
      → get next.0 k ≡ get states k
  unfolding visit_all
  visit_all-keeps [] states h k next idle e = ground arith
  visit_all-keeps (j ∷ ks) states h k next idle e =
      elim (Result-cases (visit check watch_secs tasks now states h j)) [
        | inl ((s, h'), e') ↦
            let same = visit_keeps states h j k (s, h') idle e' in
            ground (arith, e', same, visit_all-keeps ks s h' k next)
        | inr (raised, e') ↦ ground arith
      ]

  -- A round of visits leaves an instance that has finished as it is, whatever the health check says
  -- of its task then.
  pub visit_all-finished :
      (ks : List ℕ) (states : States) (h : H) (k : ℕ) (i : Instance) (next : States × H)
      → get states k ≡ some i
      → i.finished ≡ true
      → visit_all check watch_secs tasks now states h ks ≡ ok next
      → get next.0 k ≡ some i
  visit_all-finished ks states h k i next known done e =
      ground (arith, visit_all-keeps ks states h k next (ground arith) e)
