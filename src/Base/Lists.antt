-- ===== src/Base/Lists.antt =====
-- Lists measured by native numbers, and predicates over all items, under the library's names.
use Prim.Native.Nat.{ℕ, zero, suc, ◌+◌, ◌-◌, ◌≤◌}
use mathlib.Core.Path.{◌≡◌, refl, ap}
use mathlib.Core.Bool.{Bool, true, false, ◌&&◌}
use mathlib.Core.List.{List, [], ◌∷◌, ◌++◌}
use mathlib.Core.Option.{Option, none, some}
use native.Mathlib.Omega.{arith}
use aurora_client.Base.Tests.{if◌then◌else◌}

module _ {ℓ} {A : Type ℓ} where
  abbrev pub length : List A → ℕ
  length [] = 0
  length (x ∷ xs) = suc (length xs)

  -- `not xs`
  abbrev pub is_nil : List A → Bool
  is_nil [] = true
  is_nil (x ∷ xs) = false

  -- `xs[-1]`
  abbrev pub get_last? : List A → Option A
  get_last? [] = none
  get_last? (x ∷ []) = some x
  get_last? (x ∷ y ∷ xs) = get_last? (y ∷ xs)

  abbrev pub keep_if : (A → Bool) → List A → List A
  keep_if p [] = []
  keep_if p (x ∷ xs) = if p x then x ∷ keep_if p xs else keep_if p xs

  -- `all(p(x) for x in xs)`
  abbrev pub all : (A → Bool) → List A → Bool
  all p [] = true
  all p (x ∷ xs) = if p x then all p xs else false

  abbrev pub All {κ} : (A → Type κ) → List A → Type κ
  All P [] = Unit
  All P (x ∷ xs) = P x × All P xs

  pub all_mono :
      (p q : A → Bool) (xs : List A)
      → ((x : A) → p x ≡ true → q x ≡ true)
      → all p xs ≡ true
      → all q xs ≡ true
  all_mono p q [] h e = refl
  all_mono p q (x ∷ xs) h e = ground (arith, h x, all_mono p q xs h)

  pub all-append : (p : A → Bool) (xs ys : List A) → all p (xs ++ ys) ≡ (all p xs && all p ys)
  all-append p [] ys = refl
  all-append p (x ∷ xs) ys = ground (arith, all-append p xs ys)

  pub keep_if_cong :
      (p q : A → Bool) (xs : List A) → ((x : A) → p x ≡ q x) → keep_if p xs ≡ keep_if q xs
  keep_if_cong p q [] h = refl
  keep_if_cong p q (x ∷ xs) h = ground (arith, h x, keep_if_cong p q xs h)

  pub append_assoc : (xs ys zs : List A) → (xs ++ ys) ++ zs ≡ xs ++ (ys ++ zs)
  append_assoc [] ys zs = refl
  append_assoc (x ∷ xs) ys zs = ground (arith, append_assoc xs ys zs)

  pub append_nil : (xs : List A) → xs ++ [] ≡ xs
  append_nil [] = refl
  append_nil (x ∷ xs) = ground (arith, append_nil xs)

  pub length-append : (xs ys : List A) → length (xs ++ ys) ≡ length xs + length ys
  length-append [] ys = omega arith
  length-append (x ∷ xs) ys = omega (arith, length-append xs ys)

  pub get_last?-append : (xs : List A) (x : A) → get_last? (xs ++ x ∷ []) ≡ some x
  get_last?-append [] x = refl
  get_last?-append (y ∷ []) x = refl
  get_last?-append (y ∷ z ∷ xs) x = get_last?-append (z ∷ xs) x

  pub All-append {κ} : (P : A → Type κ) (xs ys : List A) → All P xs → All P ys → All P (xs ++ ys)
  All-append P [] ys _ h = h
  All-append P (x ∷ xs) ys (p, ps) h = (p, All-append P xs ys ps h)

-- A loop that appends what is there.
pub All-optional {ℓ κ} :
    {A : Type ℓ} (P : A → Type κ) (o : Option A) (rest : List A)
    → ((a : A) → o ≡ some a → P a)
    → All P rest
    → All P (elim o [ none ↦ rest | some a ↦ a ∷ rest ])
All-optional P none rest h k = k
All-optional P (some a) rest h k = (h a refl, k)

-- `xs[:n]` and `xs[n:]`
module _ {ℓ} {A : Type ℓ} where
  unfoldable pub take : ℕ → List A → List A
  take zero xs = []
  take (suc n) [] = []
  take (suc n) (x ∷ xs) = x ∷ take n xs

  unfoldable pub drop : ℕ → List A → List A
  drop zero xs = xs
  drop (suc n) [] = []
  drop (suc n) (x ∷ xs) = drop n xs

  pub take-drop : (n : ℕ) (xs : List A) → take n xs ++ drop n xs ≡ xs
  unfolding take drop
  take-drop zero xs = refl
  take-drop (suc n) [] = refl
  take-drop (suc n) (x ∷ xs) = ap (◌∷◌ x) (take-drop n xs)

  pub length-take_le : (n : ℕ) (xs : List A) → length (take n xs) ≤ n
  unfolding take
  length-take_le zero xs = omega arith
  length-take_le (suc n) [] = omega arith
  length-take_le (suc n) (x ∷ xs) = omega (arith, length-take_le n xs)

  pub length-drop : (n : ℕ) (xs : List A) → length (drop n xs) ≡ length xs - n
  unfolding drop
  length-drop zero xs = omega arith
  length-drop (suc n) [] = omega arith
  length-drop (suc n) (x ∷ xs) = omega (arith, length-drop n xs)
