-- ===== src/Client/Updater/Threshold.antt =====
-- `FailureThreshold` counts failures, and a failed update stays failed.
use aurora_client.Base.{
  ℕ, ◌+◌, ◌≤◌, ◌≡◌, true, ◌&&◌, List, [], ◌∷◌, arith, if◌then◌else◌, ◌==◌, ==_iff, nat_eq, ltb,
}
use aurora_client.Base.Sets.{member}
use aurora_client.Base.Dicts.{Dict, get, put, get-put, get_default}
use aurora_client.Client.Updater.{
  FailureThreshold, count_one, failures_of, update_failure_counts, exceeded_count, is_failed_update,
}

-- How often an instance is in a list.
unfoldable pub count : ℕ → List ℕ → ℕ
count i [] = 0
count i (j ∷ js) = if j == i then count i js + 1 else count i js

failures_of-count_one :
    (t : FailureThreshold) (j i : ℕ)
    → failures_of (count_one t j) i ≡ (if j == i then failures_of t i + 1 else failures_of t i)
failures_of-count_one t j i =
    ground (arith, get-put t.failures_by_instance j (failures_of t j + 1) i, ==_iff j i)

count_pos : (i : ℕ) (js : List ℕ) → member i js ≡ ltb 0 (count i js)
unfolding count member
count_pos i [] = ground arith
count_pos i (j ∷ js) = ground (arith, count_pos i js)

-- A batch adds to the count of every instance as often as the instance failed in it, and the
-- instances that are returned are those of the batch whose new count is past the limit.
pub update_failure_counts_lem :
    (is : List ℕ) (t : FailureThreshold) (i : ℕ)
    → (failures_of (update_failure_counts t is).0 i ≡ failures_of t i + count i is)
      × (member i (update_failure_counts t is).1
          ≡ (member i is && ltb t.max_per_instance_failures (failures_of t i + count i is)))
unfolding update_failure_counts count member
update_failure_counts_lem [] t i = ground arith
update_failure_counts_lem (j ∷ js) t i = ground (
  arith,
  update_failure_counts_lem js (count_one t j) i,
  failures_of-count_one t j i,
  failures_of-count_one t j j,
  ==_iff j i,
  ==_iff j j,
  count_pos i js,
)

exceeded_count-put :
    (limit : ℕ) (d : Dict ℕ ℕ) (i n : ℕ)
    → get_default d i 0 ≤ n
    → exceeded_count limit d ≤ exceeded_count limit (put d i n)
unfolding exceeded_count put get
exceeded_count-put limit [] i n h = ground arith
exceeded_count-put limit ((j, m) ∷ d) i n h = ground (arith, exceeded_count-put limit d i n)

still_failed :
    (t : FailureThreshold) (i : ℕ)
    → is_failed_update t ≡ true
    → is_failed_update (count_one t i) ≡ true
unfolding is_failed_update
still_failed t i h = ground (
  arith,
  exceeded_count-put t.max_per_instance_failures t.failures_by_instance i (failures_of t i + 1),
)

-- An update that has failed stays failed, whatever fails after that.
pub is_failed_update_lasting :
    (is : List ℕ) (t : FailureThreshold)
    → is_failed_update t ≡ true
    → is_failed_update (update_failure_counts t is).0 ≡ true
unfolding update_failure_counts
is_failed_update_lasting [] t h = h
is_failed_update_lasting (i ∷ is) t h =
    is_failed_update_lasting is (count_one t i) (still_failed t i h)
