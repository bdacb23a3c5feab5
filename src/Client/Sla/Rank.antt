-- ===== src/Client/Sla/Rank.antt =====
-- src/main/python/apache/aurora/client/api/sla.py: how many items of a sorted list reach a bound.
use aurora_client.Base.{
  ℕ, zero, suc, ◌-◌, ◌≡◌, refl, Bool, some, List, [], ◌∷◌, All, length, leb, arith, inl, inr,
  Bool-cases,
}
use aurora_client.Base.Int.{ℤ, leb_ℤ, ◌≤ℤ◌}
use aurora_client.Base.Sorting.{
  count_if, count_if_le, get_elem?, insert_by, sort_by, count_if-sort_by, length-sort_by,
}

abbrev reaches : ℤ → ℤ → Bool
reaches bound x = leb_ℤ bound x

unfoldable IsSorted : List ℤ → Type 0
IsSorted [] = Unit
IsSorted (x ∷ xs) = All (λ y. x ≤ℤ y) xs × IsSorted xs

insert_by-All :
    (P : ℤ → Type 0) (x : ℤ) (ys : List ℤ) → P x → All P ys → All P (insert_by leb_ℤ x ys)
unfolding insert_by
insert_by-All P x [] h _ = (h, tt)
insert_by-All P x (y ∷ ys) h (p, ps) = elim (Bool-cases (leb_ℤ x y)) [
  | inl below ↦ rw below (h, (p, ps))
  | inr above ↦ rw above (p, insert_by-All P x ys h ps)
]

All-below : (x y : ℤ) (zs : List ℤ) → x ≤ℤ y → All (λ z. y ≤ℤ z) zs → All (λ z. x ≤ℤ z) zs
All-below x y [] h _ = tt
All-below x y (z ∷ zs) h (p, ps) = (omega arith, All-below x y zs h ps)

insert_by-IsSorted : (x : ℤ) (ys : List ℤ) → IsSorted ys → IsSorted (insert_by leb_ℤ x ys)
unfolding insert_by IsSorted
insert_by-IsSorted x [] _ = (tt, tt)
insert_by-IsSorted x (y ∷ ys) (low, s) = elim (Bool-cases (leb_ℤ x y)) [
  | inl below ↦ rw below ((ground arith, All-below x y ys (ground arith) low), (low, s))
  | inr above ↦
      rw above (insert_by-All (λ z. y ≤ℤ z) x ys (ground arith) low, insert_by-IsSorted x ys s)
]

sort_by-IsSorted : (xs : List ℤ) → IsSorted (sort_by leb_ℤ xs)
unfolding sort_by IsSorted
sort_by-IsSorted [] = tt
sort_by-IsSorted (x ∷ xs) = insert_by-IsSorted x (sort_by leb_ℤ xs) (sort_by-IsSorted xs)

All-reach :
    (c x : ℤ) (xs : List ℤ) → c ≤ℤ x → All (λ y. x ≤ℤ y) xs → count_if (reaches c) xs ≡ length xs
unfolding count_if
All-reach c x [] h _ = refl
All-reach c x (y ∷ ys) h (p, ps) = ground (arith, All-reach c x ys h ps)

-- At least k items reach the bound exactly when the k-th from the end does.
sorted_rank :
    (c : ℤ) (xs : List ℤ) (i : ℕ) (x : ℤ)
    → IsSorted xs
    → get_elem? xs i ≡ some x
    → leb (length xs - i) (count_if (reaches c) xs) ≡ leb_ℤ c x
unfolding IsSorted get_elem? count_if
sorted_rank c [] i x _ found = cc
sorted_rank c (y ∷ ys) zero x (low, s) found = elim (Bool-cases (leb_ℤ c y)) [
  | inl reached ↦ ground (arith, All-reach c y ys (ground arith) low)
  | inr short ↦ ground (arith, count_if_le (reaches c) ys)
]
sorted_rank c (y ∷ ys) (suc i) x (low, s) found = elim (Bool-cases (leb_ℤ c y)) [
  | inl reached ↦ ground (arith, All-reach c y ys (ground arith) low, sorted_rank c ys i x s found)
  | inr short ↦ ground (arith, sorted_rank c ys i x s found)
]

pub rank :
    (c : ℤ) (xs : List ℤ) (i : ℕ) (x : ℤ)
    → get_elem? (sort_by leb_ℤ xs) i ≡ some x
    → leb (length xs - i) (count_if (λ y. leb_ℤ c y) xs) ≡ leb_ℤ c x
rank c xs i x found = ground (
  arith,
  sorted_rank c (sort_by leb_ℤ xs) i x (sort_by-IsSorted xs) found,
  count_if-sort_by leb_ℤ (reaches c) xs,
  length-sort_by leb_ℤ xs,
)
