-- ===== src/Client/Updater/Maximal.antt =====
-- The ranges cannot be joined.
use aurora_client.Base.{
  ℕ, ◌+◌, ◌≤◌, ◌<◌, ◌≡◌, refl, Bool, true, ◌&&◌, Option, none, some, List, [], ◌∷◌, arith, ◌==◌,
  Bool-cases, inl, inr, ltb, leb,
}
use aurora_client.Base.Int.{ℤ, sub_ℕ, int_eq, beq_ℤ_iff}
use aurora_client.Client.Updater.{Range, key, group_ranges, instances_to_ranges}

-- Sorted, with no instance twice; the first one is above `low`.
abbrev pub IsIncreasing : ℕ → List ℕ → Type 0
IsIncreasing low [] = Unit {0}
IsIncreasing low (x ∷ xs) = (low < x) × IsIncreasing x xs

abbrev pub beyond : Option ℕ → ℕ → Bool
beyond none first = true
beyond (some last) first = ltb (last + 1) first

-- No range is empty, and one number at least is missing between each and the next.
abbrev pub separated : Option ℕ → List Range → Bool
separated last [] = true
separated last (r ∷ rs) = beyond last r.first && leb r.first r.last && separated (some r.last) rs

group-separated :
    (xs : List ℕ) (before : Option ℕ) (k : ℤ) (start last index : ℕ)
    → start ≤ last
    → beyond before start ≡ true
    → k ≡ sub_ℕ index (last + 1)
    → IsIncreasing last xs
    → separated before (group_ranges k start last index xs) ≡ true
unfolding group_ranges
group-separated [] before k start last index h b e i = ground arith
group-separated (x ∷ xs) before k start last index h b e i = elim (Bool-cases (key index x == k)) [
  | inl same ↦
      let next : k ≡ sub_ℕ (index + 1) (x + 1) = ground (arith, beq_ℤ_iff (key index x) k) in
      rw same (group-separated xs before k start x (index + 1) (omega arith) b next i.1)
  | inr other ↦
      let gap : last + 1 < x = ground (arith, beq_ℤ_iff (key index x) k) in
      rw other (
        ground (
          arith,
          group-separated xs (some last) (key index x) x x (index + 1) (omega arith) (ground arith)
              (ground arith) i.1,
        ))
]

abbrev pub Separated : Option (List Range) → Type 0
Separated none = Unit {0}
Separated (some rs) = separated none rs ≡ true

-- For sorted instances without repetition the ranges are as few as can be: none is empty, and
-- between two neighbours a number is missing.
pub instances_to_ranges-Separated :
    (x : ℕ) (xs : List ℕ) → IsIncreasing x xs → Separated (instances_to_ranges (x ∷ xs))
unfolding instances_to_ranges
instances_to_ranges-Separated x xs i =
    group-separated xs none (key 0 x) x x 1 (omega arith) refl (ground arith) i
