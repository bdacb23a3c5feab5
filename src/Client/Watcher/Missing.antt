-- ===== src/Client/Watcher/Missing.antt =====
-- An instance whose task never runs.
use aurora_client.Base.{
  ℕ, ◌≡◌, refl, ◌∙◌, Bool, true, false, not, none, some, List, [], ◌∷◌, arith, ◌≢◌, ok, ◌==◌,
  nat_eq, Option-cases, Result-cases, inl, inr, all,
}
use aurora_client.Base.Sets.{member, set_eq, set_eq-member}
use aurora_client.Base.Dicts.{Dict, get, put, get-put}
use aurora_client.Client.Watcher.{
  ScheduledTask, States, Poll, tasks_by_instance, finished_instances, visit_all, watch_from, watch,
}
use aurora_client.Client.Watcher.Sound.{member-select}
use aurora_client.Client.Watcher.Verdict.{watch_total}
use aurora_client.Client.Watcher.Lasting.{visit_all-keeps}

-- No task of the instance among those that are running.
abbrev pub absent_from : ℕ → List ScheduledTask → Bool
absent_from k tasks = all (λ t. not (t.instance_id == k)) tasks

absent-get :
    (k : ℕ) (tasks : List ScheduledTask) (d : Dict ℕ ScheduledTask)
    → absent_from k tasks ≡ true
    → get d k ≡ none
    → get (tasks_by_instance d tasks) k ≡ none
unfolding tasks_by_instance
absent-get k [] d a e = e
absent-get k (t ∷ ts) d a e =
    absent-get k ts (put d t.instance_id t) (ground arith)
      (ground (arith, get-put d t.instance_id t k))

module _ {H : Type 0} (check : H → ScheduledTask → H × Bool) (watch_secs : ℕ) (ids : List ℕ) (k : ℕ)
    (watched : member k ids ≡ true) where
  waits :
      (polls : List Poll) (states : States) (h : H) (fs : List ℕ)
      → get states k ≡ none
      → all (λ p. absent_from k p.running_tasks) polls ≡ true
      → watch_from check watch_secs ids states h polls ≢ ok (some fs)
  unfolding watch_from get
  waits [] states h fs new a e = cc
  waits (p ∷ ps) states h fs new a e =
      let tasks = tasks_by_instance [] p.running_tasks in
      elim (Result-cases (visit_all check watch_secs tasks p.now states h ids)) [
        | inl ((s, h'), e') ↦
            let gone = absent-get k p.running_tasks [] (ground arith) refl in
            let new' : get s k ≡ none =
              visit_all-keeps check watch_secs tasks p.now ids states h k (s, h')
                (ground (arith, gone)) e'
              ∙ new in
            let unset : set_eq (finished_instances s) ids ≡ false = ground (
              arith,
              set_eq-member (finished_instances s) ids k,
              member-select (λ i. i.finished) s k,
            ) in
            ground (arith, e', unset, waits ps s h' fs new' (ground arith))
        | inr (raised, e') ↦ ground arith
      ]

  -- While one of its instances never has a running task the watch goes on until it is terminated:
  -- there is no limit on the polls.
  pub missing-watch :
      (h : H) (polls : List Poll)
      → all (λ p. absent_from k p.running_tasks) polls ≡ true
      → watch check watch_secs ids h polls ≡ ok none
  unfolding watch get
  missing-watch h polls a =
      let (r, e) = watch_total check watch_secs ids h polls in
      elim (Option-cases r) [
        | inl ended ↦ ground arith
        | inr (fs, e') ↦ absurd (waits polls [] h fs refl a (ground arith))
      ]
