-- ===== src/Client/Restarter/Rolling.antt =====
-- What a rolling restart restarts.
use aurora_client.Base.{
  ℕ, zero, suc, ◌≤◌, ◌<◌, ◌≡◌, refl, sym, ap, ◌∙◌, true, false, ◌||◌, none, some, List, [], ◌∷◌,
  ◌++◌, arith, if◌then◌else◌, is_nil, all, length, leb, take, drop, take-drop, length-take_le,
  length-drop, nat_eq, ◌==◌, map, Bool-cases, inl, inr,
}
use aurora_client.Base.Sets.{member, member-append}
use aurora_client.Client.Updater.{
  FailureThreshold, new_threshold, update_failure_counts, is_failed_update,
}
use aurora_client.Client.Restarter.{
  RestartSettings, Answer, refused, watched, restarted, roll, insert, sorted, restart,
}
use aurora_client.Client.Watcher.{ScheduledTask}
use mathlib.Core.List.{append-nil}

pub concat : List (List ℕ) → List ℕ
concat [] = []
concat (b ∷ bs) = b ++ concat bs

-- The answers of a scheduler that accepts every call and of a watcher that sees no failure.
pub quiet : ℕ → List Answer
quiet zero = []
quiet (suc n) = watched (some []) ∷ quiet n

module _ (s : RestartSettings) where
  in_batch_or_rest :
      (is : List ℕ) (k : ℕ)
      → member k is ≡ (member k (take s.batch_size is) || member k (drop s.batch_size is))
  in_batch_or_rest is k =
      ap (member k) (sym (take-drop s.batch_size is))
      ∙ member-append (take s.batch_size is) (drop s.batch_size is) k

  -- A restart that ends well has restarted every instance that it was given, whatever failed on the
  -- way.
  pub roll_restarts :
      (answers : List Answer) (t : FailureThreshold) (is : List ℕ) (k : ℕ)
      → (roll s t is answers).1 ≡ restarted
      → member k is ≡ true
      → member k (concat (roll s t is answers).0) ≡ true
  unfolding roll concat member
  roll_restarts [] t [] k e m = cc
  roll_restarts [] t (i ∷ is) k e m = ground arith
  roll_restarts (refused ∷ more) t [] k e m = cc
  roll_restarts (refused ∷ more) t (i ∷ is) k e m = ground arith
  roll_restarts (watched none ∷ more) t [] k e m = cc
  roll_restarts (watched none ∷ more) t (i ∷ is) k e m = ground arith
  roll_restarts (watched (some fs) ∷ more) t [] k e m = cc
  roll_restarts (watched (some fs) ∷ more) t (i ∷ is) k e m =
      let t' = (update_failure_counts t fs).0 in
      let rest = drop s.batch_size (i ∷ is) ++ fs in
      elim (Bool-cases (is_failed_update t)) [
        | inl over ↦ ground arith
        | inr going ↦ ground (
          arith,
          going,
          in_batch_or_rest (i ∷ is) k,
          member-append (drop s.batch_size (i ∷ is)) fs k,
          member-append (take s.batch_size (i ∷ is)) (concat (roll s t' rest more).0) k,
          roll_restarts more t' rest k,
        )
      ]

  -- No batch is larger than the batch size.
  pub roll_batches :
      (answers : List Answer) (t : FailureThreshold) (is : List ℕ)
      → all (λ b. leb (length b) s.batch_size) (roll s t is answers).0 ≡ true
  unfolding roll
  roll_batches [] t is = ground (arith, length-take_le s.batch_size is)
  roll_batches (refused ∷ more) t is = ground (arith, length-take_le s.batch_size is)
  roll_batches (watched none ∷ more) t is = ground (arith, length-take_le s.batch_size is)
  roll_batches (watched (some fs) ∷ more) t is = ground (
    arith,
    length-take_le s.batch_size is,
    roll_batches more (update_failure_counts t fs).0 (drop s.batch_size is ++ fs),
  )

  -- Without failures the restart ends well once there are as many answers as instances, and its
  -- batches in a row are the instances, each once and in order.
  pub quiet-roll :
      (n : ℕ) (t : FailureThreshold) (is : List ℕ)
      → 0 < s.batch_size
      → is_failed_update t ≡ false
      → length is ≤ n
      → ((roll s t is (quiet n)).1 ≡ restarted) × (concat (roll s t is (quiet n)).0 ≡ is)
  unfolding roll concat quiet update_failure_counts
  quiet-roll zero t [] positive fine h = (ground arith, ground arith)
  quiet-roll zero t (i ∷ is) positive fine h = absurd (omega arith)
  quiet-roll (suc n) t [] positive fine h = (ground arith, ground arith)
  quiet-roll (suc n) t (i ∷ is) positive fine h =
      let rest = drop s.batch_size (i ∷ is) ++ [] in
      let same : rest ≡ drop s.batch_size (i ∷ is) = append-nil (drop s.batch_size (i ∷ is)) in
      let (ends, all_of) =
        quiet-roll n t rest positive fine
          (omega (arith, ap length same, length-drop s.batch_size (i ∷ is))) in
      (
        ground (arith, fine, ends),
        ground (
          arith,
          fine,
          ap (◌++◌ (take s.batch_size (i ∷ is))) (all_of ∙ same) ∙ take-drop s.batch_size (i ∷ is),
        ),
      )

member-insert : (i : ℕ) (js : List ℕ) (k : ℕ) → member k (insert i js) ≡ ((i == k) || member k js)
unfolding insert member
member-insert i [] k = ground arith
member-insert i (j ∷ js) k = ground (arith, member-insert i js k)

member-sorted : (is : List ℕ) (k : ℕ) → member k (sorted is) ≡ member k is
unfolding sorted member
member-sorted [] k = refl
member-sorted (i ∷ is) k = ground (arith, member-insert i (sorted is) k, member-sorted is k)

-- The instances that are asked for, or those of all active tasks where none is.
abbrev pub targets : List ScheduledTask → List ℕ → List ℕ
targets tasks instances =
    if is_nil instances then map (λ task. task.instance_id) tasks else instances

-- A restart that ends well has restarted every instance that was asked for, or, where none was,
-- the instance of every active task, whatever failed on the way.
pub restart_covers :
    (s : RestartSettings) (tasks : List ScheduledTask) (instances : List ℕ) (answers : List Answer)
    (k : ℕ)
    → (restart s (some tasks) instances answers).1 ≡ restarted
    → member k (targets tasks instances) ≡ true
    → member k (concat (restart s (some tasks) instances answers).0) ≡ true
unfolding restart
restart_covers s tasks instances answers k e m =
    let t = new_threshold s.max_per_instance_failures s.max_total_failures in
    let ids = map (λ task. task.instance_id) tasks in
    elim (Bool-cases (is_nil instances)) [
      | inl all_of ↦ elim (Bool-cases (is_nil (sorted ids))) [
        | inl nothing ↦ absurd (ground arith)
        | inr some_of ↦
            ground (arith, member-sorted ids k, roll_restarts s answers t (sorted ids) k)
      ]
      | inr given ↦ ground (arith, roll_restarts s answers t instances k)
    ]
