-- ===== src/Base/Sorting.antt =====
-- Python's `sorted` by an order that is given as a test, and counting.
use Prim.Native.Nat.{ℕ, zero, suc, ◌≤◌, ◌<◌}
use mathlib.Core.Path.{◌≡◌, refl}
use mathlib.Core.Bool.{Bool, true}
use mathlib.Core.Option.{Option, none, some}
use mathlib.Core.List.{List, [], ◌∷◌}
use native.Mathlib.Omega.{arith}
use aurora_client.Base.Tests.{if◌then◌else◌}
use aurora_client.Base.Lists.{length}

module _ {A : Type 0} where
  -- `len([x for x in xs if p(x)])`
  unfoldable pub count_if : (A → Bool) → List A → ℕ
  count_if p [] = 0
  count_if p (x ∷ xs) = if p x then suc (count_if p xs) else count_if p xs

  -- `xs[i]`
  unfoldable pub get_elem? : List A → ℕ → Option A
  get_elem? [] i = none
  get_elem? (x ∷ xs) zero = some x
  get_elem? (x ∷ xs) (suc i) = get_elem? xs i

  pub count_if_le : (p : A → Bool) (xs : List A) → count_if p xs ≤ length xs
  unfolding count_if
  count_if_le p [] = omega arith
  count_if_le p (x ∷ xs) = ground (arith, count_if_le p xs)

  pub count_if_cong :
      (p q : A → Bool) (xs : List A) → ((x : A) → p x ≡ q x) → count_if p xs ≡ count_if q xs
  unfolding count_if
  count_if_cong p q [] h = refl
  count_if_cong p q (x ∷ xs) h = ground (arith, h x, count_if_cong p q xs h)

  pub count_if_mono :
      (p q : A → Bool) (xs : List A)
      → ((x : A) → p x ≡ true → q x ≡ true)
      → count_if p xs ≤ count_if q xs
  unfolding count_if
  count_if_mono p q [] h = omega arith
  count_if_mono p q (x ∷ xs) h = ground (arith, h x, count_if_mono p q xs h)

  pub get_elem?_lt : (xs : List A) (i : ℕ) → i < length xs → (x : A) × (get_elem? xs i ≡ some x)
  unfolding get_elem?
  get_elem?_lt [] i h = ground arith
  get_elem?_lt (x ∷ xs) zero h = (x, refl)
  get_elem?_lt (x ∷ xs) (suc i) h = get_elem?_lt xs i (omega arith)

module _ {A : Type 0} (is_le : A → A → Bool) where
  unfoldable pub insert_by : A → List A → List A
  insert_by x [] = x ∷ []
  insert_by x (y ∷ ys) = let rest = insert_by x ys in if is_le x y then x ∷ y ∷ ys else y ∷ rest

  unfoldable pub sort_by : List A → List A
  sort_by [] = []
  sort_by (x ∷ xs) = insert_by x (sort_by xs)

  count_if-insert_by :
      (p : A → Bool) (x : A) (ys : List A) → count_if p (insert_by x ys) ≡ count_if p (x ∷ ys)
  unfolding insert_by count_if
  count_if-insert_by p x [] = refl
  count_if-insert_by p x (y ∷ ys) = ground (arith, count_if-insert_by p x ys)

  pub count_if-sort_by : (p : A → Bool) (xs : List A) → count_if p (sort_by xs) ≡ count_if p xs
  unfolding sort_by count_if
  count_if-sort_by p [] = refl
  count_if-sort_by p (x ∷ xs) =
      ground (arith, count_if-insert_by p x (sort_by xs), count_if-sort_by p xs)

  length-insert_by : (x : A) (ys : List A) → length (insert_by x ys) ≡ suc (length ys)
  unfolding insert_by
  length-insert_by x [] = refl
  length-insert_by x (y ∷ ys) = ground (arith, length-insert_by x ys)

  pub length-sort_by : (xs : List A) → length (sort_by xs) ≡ length xs
  unfolding sort_by
  length-sort_by [] = refl
  length-sort_by (x ∷ xs) = ground (arith, length-insert_by x (sort_by xs), length-sort_by xs)
