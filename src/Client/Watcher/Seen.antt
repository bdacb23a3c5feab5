-- ===== src/Client/Watcher/Seen.antt =====
-- Which checks a watch makes, and in which state, and that its states are sound by them.
use aurora_client.Base.{
  append_assoc, sym, ◌∙◌, ◌++◌, Result, Result-cases, ◌>>=◌, ℕ, ◌≡◌, refl, Bool, true, false, some,
  List, [], ◌∷◌, arith, ok, ==_iff, nat_eq, Option-cases, Bool-cases, inl, inr,
}
use aurora_client.Base.Sets.{member, member-append}
use aurora_client.Base.Dicts.{Dict, get}
use aurora_client.Client.Watcher.{
  ScheduledTask, WatchError, Poll, tasks_by_instance, States, set_instance_unhealthy, is_finished,
  visit, visit_all,
}
use aurora_client.Client.Watcher.Sound.{Sound, healthy-Sound, unhealthy-Sound}

module _ {H : Type 0} (check : H → ScheduledTask → H × Bool) (watch_secs : ℕ) where
  -- The state of a watch after some whole polls.
  unfoldable pub after_polls : List ℕ → States → H → List Poll → Result WatchError (States × H)
  after_polls ids states h [] = ok (states, h)
  after_polls ids states h (p ∷ ps) =
      visit_all check watch_secs (tasks_by_instance [] p.running_tasks) p.now states h ids
      >>= λ next. after_polls ids next.0 next.1 ps

  pub after_polls-append :
      (ids : List ℕ) (states s : States) (h g : H) (ps : List Poll) (p : Poll)
      → after_polls ids states h ps ≡ ok (s, g)
      → after_polls ids states h (ps ++ p ∷ [])
        ≡ visit_all check watch_secs (tasks_by_instance [] p.running_tasks) p.now s g ids
  unfolding after_polls
  after_polls-append ids states s h g [] p e =
      elim (Result-cases
        (visit_all check watch_secs (tasks_by_instance [] p.running_tasks) p.now states h ids)) [
          | inl (next, done) ↦ ground (arith, e, done)
          | inr (raised, failed) ↦ ground (arith, e, failed)
        ]
  after_polls-append ids states s h g (q ∷ ps) p e =
      elim (Result-cases
        (visit_all check watch_secs (tasks_by_instance [] q.running_tasks) q.now states h ids)) [
          | inl (next, done) ↦
              ground (
                arith,
                done,
                after_polls-append ids next.0 s next.1 g ps p (ground (arith, done, e)),
              )
          | inr (raised, failed) ↦ absurd (ground (arith, e, failed))
        ]

  visit_all-append :
      (tasks : Dict ℕ ScheduledTask) (now : ℕ) (states s : States) (h g : H) (ks : List ℕ) (k : ℕ)
      → visit_all check watch_secs tasks now states h ks ≡ ok (s, g)
      → visit_all check watch_secs tasks now states h (ks ++ k ∷ [])
        ≡ visit check watch_secs tasks now s g k
  unfolding visit_all
  visit_all-append tasks now states s h g [] k e =
      elim (Result-cases (visit check watch_secs tasks now states h k)) [
        | inl (next, done) ↦ ground (arith, e, done)
        | inr (raised, failed) ↦ ground (arith, e, failed)
      ]
  visit_all-append tasks now states s h g (j ∷ ks) k e =
      elim (Result-cases (visit check watch_secs tasks now states h j)) [
        | inl (next, done) ↦ ground (
          arith,
          done,
          visit_all-append tasks now next.0 s next.1 g ks k (ground (arith, done, e)),
        )
        | inr (raised, failed) ↦ absurd (ground (arith, e, failed))
      ]

  -- The check that a watch makes of an instance at one of its polls, where it passes: the state of
  -- the watch is that after the earlier polls and the earlier instances of this poll.
  pub record SeenWell (ids : List ℕ) (start : H) (polls : List Poll) (k now : ℕ) : Type 0 where
    pub earlier : List Poll
    pub poll : Poll
    pub later : List Poll
    pub polled : polls ≡ earlier ++ poll ∷ later
    pub at : poll.now ≡ now
    pub states : States
    pub h : H
    pub begun : after_polls ids [] start earlier ≡ ok (states, h)
    pub before : List ℕ
    pub after : List ℕ
    pub watched : ids ≡ before ++ k ∷ after
    pub states_then : States
    pub h_then : H
    pub visited :
        visit_all check watch_secs (tasks_by_instance [] poll.running_tasks) now states h before
        ≡ ok (states_then, h_then)
    pub goes_on : is_finished (get states_then k) ≡ false
    pub task : ScheduledTask
    pub runs : get (tasks_by_instance [] poll.running_tasks) k ≡ some task
    pub passes : (check h_then task).1 ≡ true

module _ {H : Type 0} (check : H → ScheduledTask → H × Bool) (Well : ℕ → ℕ → Type 0)
    (watch_secs : ℕ) (ids : List ℕ) (tasks : Dict ℕ ScheduledTask) (now : ℕ) (states0 : States)
    (h0 : H) where
  -- What the checks of one poll give.
  abbrev pub Checked : Type 0
  Checked =
      (k : ℕ) (before after : List ℕ) (s : States) (g : H) (task : ScheduledTask)
      → ids ≡ before ++ k ∷ after
      → visit_all check watch_secs tasks now states0 h0 before ≡ ok (s, g)
      → is_finished (get s k) ≡ false
      → get tasks k ≡ some task
      → (check g task).1 ≡ true
      → Well k now

  visit-Sound :
      (states : States) (h : H) (k : ℕ)
      → Sound Well watch_secs ids states
      → member k ids ≡ true
      → ((task : ScheduledTask)
          → is_finished (get states k) ≡ false
          → get tasks k ≡ some task
          → (check h task).1 ≡ true
          → Well k now)
      → (next : States × H) × (visit check watch_secs tasks now states h k ≡ ok next)
        × Sound Well watch_secs ids next.0
  unfolding visit
  visit-Sound states h k v m seen = elim (Bool-cases (is_finished (get states k))) [
    | inl done ↦ ((states, h), rw done, v)
    | inr unset ↦ elim (Option-cases (get tasks k)) [
      | inl gone ↦ ((states, h), ground (arith, unset, gone), v)
      | inr (task, e) ↦ elim (Bool-cases (check h task).1) [
        | inl well ↦
            let (next, e', v') = healthy-Sound states k now v m (seen task unset e well) unset in
            ((next, (check h task).0), ground (arith, unset, e, well, e'), v')
        | inr ill ↦ (
          (set_instance_unhealthy states k, (check h task).0),
          ground (arith, unset, e, ill),
          unhealthy-Sound states k v m,
        )
      ]
    ]
  ]

  pub visit_all-Sound :
      (before ks : List ℕ) (states : States) (h : H)
      → Sound Well watch_secs ids states
      → ids ≡ before ++ ks
      → visit_all check watch_secs tasks now states0 h0 before ≡ ok (states, h)
      → Checked
      → (next : States × H) × (visit_all check watch_secs tasks now states h ks ≡ ok next)
        × Sound Well watch_secs ids next.0
  unfolding visit_all
  visit_all-Sound before [] states h v split done seen = ((states, h), refl, v)
  visit_all-Sound before (k ∷ ks) states h v split done seen =
      let inside : member k ids ≡ true =
        rw (split, member-append before (k ∷ ks) k) (unfold member in ground (arith, ==_iff k k)) in
      let ((s, h'), e, v') =
        visit-Sound states h k v inside
          (λ task unset found well. seen k before ks states h task split done unset found well) in
      let (next, e', v'') =
        visit_all-Sound (before ++ k ∷ []) ks s h' v'
          (split ∙ sym (append_assoc before (k ∷ []) ks))
          (visit_all-append check watch_secs tasks now states0 states h0 h before k done ∙ e)
          seen in
      (next, ground (arith, e, e'), v'')
