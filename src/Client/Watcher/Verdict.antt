-- ===== src/Client/Watcher/Verdict.antt =====
-- What the watch returns, and that it never raises.
use aurora_client.Base.{
  append_assoc, ◌++◌, ℕ, ◌≡◌, refl, sym, ◌∙◌, subst, Bool, true, false, not, Option, none, some,
  List, [], ◌∷◌, arith, Result, ok, nat_eq, Option-cases, Bool-cases, inl, inr,
}
use aurora_client.Base.Sets.{member, set_eq, set_eq-member}
use aurora_client.Base.Dicts.{get}
use aurora_client.Client.Watcher.{
  ScheduledTask, States, WatchError, Poll, tasks_by_instance, finished_instances, failed_instances,
  watch_from, watch, visit_all,
}
use aurora_client.Client.Watcher.Sound.{Apart, Sound, member-select, empty-Sound}
use aurora_client.Client.Watcher.Seen.{SeenWell, after_polls, after_polls-append, visit_all-Sound}

module _ (Well : ℕ → ℕ → Type 0) (watch_secs : ℕ) (ids : List ℕ) where
  -- What is shown of a result: `none` is a watch that was terminated.
  abbrev Verdict : Option (List ℕ) → Type 0
  Verdict none = Unit {0}
  Verdict (some fs) =
      ((k : ℕ) → member k fs ≡ true → member k ids ≡ true)
      × ((k : ℕ) → member k ids ≡ true → member k fs ≡ false → Apart Well watch_secs k)

  done-Verdict :
      (states : States)
      → Sound Well watch_secs ids states
      → set_eq (finished_instances states) ids ≡ true
      → Verdict (some (failed_instances states))
  done-Verdict states v done = (
    λ k m. elim (Option-cases (get states k)) [
      | inl missing ↦ ground (arith, member-select (λ i. not i.healthy) states k)
      | inr (i, e) ↦ v.known k i e
    ],
    λ k m absent. elim (Option-cases (get states k)) [
      | inl missing ↦ absurd (
          ground (
            arith,
            member-select (λ i. i.finished) states k,
            set_eq-member (finished_instances states) ids k done,
          ))
      | inr (i, e) ↦
          (v.fine k i e).survived (ground (arith, member-select (λ i. not i.healthy) states k))
    ],
  )

module _ {H : Type 0} (check : H → ScheduledTask → H × Bool) (watch_secs : ℕ) (ids : List ℕ)
    (start : H) (all_polls : List Poll) where
  abbrev Well : ℕ → ℕ → Type 0
  Well = SeenWell check watch_secs ids start all_polls

  watch_from-Verdict :
      (earlier polls : List Poll) (states : States) (h : H)
      → Sound Well watch_secs ids states
      → all_polls ≡ earlier ++ polls
      → after_polls check watch_secs ids [] start earlier ≡ ok (states, h)
      → (r : Option (List ℕ)) × (watch_from check watch_secs ids states h polls ≡ ok r)
        × Verdict Well watch_secs ids r
  unfolding watch_from
  watch_from-Verdict earlier [] states h v split begun = (none, refl, tt)
  watch_from-Verdict earlier (p ∷ ps) states h v split begun =
      let tasks = tasks_by_instance [] p.running_tasks in
      let ((s, h'), e, v') =
        visit_all-Sound check Well watch_secs ids tasks p.now states h [] ids states h v refl
          (unfold visit_all in refl)
          (λ k before after s' g task watched visited unset found passes. record {
            earlier = earlier;
            poll = p;
            later = ps;
            polled = split;
            at = refl;
            states = states;
            h = h;
            begun = begun;
            before = before;
            after = after;
            watched = watched;
            states_then = s';
            h_then = g;
            visited = visited;
            goes_on = unset;
            task = task;
            runs = found;
            passes = passes;
          }) in
      elim (Bool-cases (set_eq (finished_instances s) ids)) [
        | inl done ↦ (
          some (failed_instances s),
          ground (arith, e, done),
          done-Verdict Well watch_secs ids s v' done,
        )
        | inr unset ↦
            let (r, e', verdict) =
              watch_from-Verdict (earlier ++ p ∷ []) ps s h' v'
                (split ∙ sym (append_assoc earlier (p ∷ []) ps))
                (after_polls-append check watch_secs ids [] states start h earlier p begun ∙ e) in
            (r, ground (arith, e, unset, e'), verdict)
      ]

abbrev Watched : Type 0
Watched = Result WatchError (Option (List ℕ))

abbrev ends : Option (List ℕ) → Watched
ends r = ok r

result : {r s : Option (List ℕ)} → ends r ≡ ends s → r ≡ s
result e = cc

module _ {H : Type 0} (check : H → ScheduledTask → H × Bool) (watch_secs : ℕ) (ids : List ℕ) (h : H)
    (polls : List Poll) where
  watch-Verdict :
      (r : Option (List ℕ)) × (watch check watch_secs ids h polls ≡ ok r)
      × Verdict (SeenWell check watch_secs ids h polls) watch_secs ids r
  unfolding watch
  watch-Verdict =
      watch_from-Verdict check watch_secs ids h polls [] polls [] h
        (empty-Sound (SeenWell check watch_secs ids h polls) watch_secs ids) refl
        (unfold after_polls in refl)

  -- The watch never raises, whatever the scheduler and the health check answer: the birthday of an
  -- instance is there whenever it is read.
  pub watch_total : (r : Option (List ℕ)) × (watch check watch_secs ids h polls ≡ ok r)
  watch_total = let (r, e, _) = watch-Verdict in (r, e)

  -- Every instance that the watch returns as failed is one that it was to watch.
  pub watch_known :
      (fs : List ℕ) (k : ℕ)
      → watch check watch_secs ids h polls ≡ ok (some fs)
      → member k fs ≡ true
      → member k ids ≡ true
  watch_known fs k e m =
      let (r, e', verdict) = watch-Verdict in
      (subst (Verdict (SeenWell check watch_secs ids h polls) watch_secs ids) (result (sym e' ∙ e))
          verdict).0
        k m

  -- For an instance that a watch which ends does not return as failed there are two polls more than
  -- `watch_secs` apart at each of which the watch, in the state that it is in by then, has not finished
  -- with the instance, is given a task of it by the scheduler, and has that task pass the health check.
  pub watch-Apart :
      (fs : List ℕ) (k : ℕ)
      → watch check watch_secs ids h polls ≡ ok (some fs)
      → member k ids ≡ true
      → member k fs ≡ false
      → Apart (SeenWell check watch_secs ids h polls) watch_secs k
  watch-Apart fs k e m absent =
      let (r, e', verdict) = watch-Verdict in
      (subst (Verdict (SeenWell check watch_secs ids h polls) watch_secs ids) (result (sym e' ∙ e))
          verdict).1
        k m absent
