-- ===== src/Base/Sets.antt =====
-- Python's `set`: a list of which only membership is read.
use mathlib.Core.Path.{◌≡◌, refl}
use mathlib.Core.Logic.{inl, inr}
use mathlib.Core.Bool.{Bool, true, false, not, ◌&&◌, ◌||◌}
use mathlib.Core.List.{List, [], ◌∷◌, ◌++◌}
use Prim.Native.Nat.{◌≤◌, ◌<◌}
use native.Mathlib.Omega.{arith}
use aurora_client.Base.Tests.{if◌then◌else◌, Bool-cases}
use aurora_client.Base.Lists.{keep_if, all, is_nil, length}
use aurora_client.Base.Keys.{Eq, ◌==◌, ==_iff}

module _ {K : Type 0} ⦃e : Eq K⦄ where
  -- k in s
  unfoldable pub member : K → List K → Bool
  member k [] = false
  member k (x ∷ xs) = if x == k then true else member k xs

  -- s.add(k)
  unfoldable pub add : K → List K → List K
  add k s = if member k s then s else k ∷ s

  -- s - t, and s.discard(k)
  unfoldable pub minus : List K → List K → List K
  minus s t = keep_if (λ x. not (member x t)) s

  unfoldable pub discard : K → List K → List K
  discard k s = keep_if (λ x. not (x == k)) s

  -- s.union(t)
  unfoldable pub union : List K → List K → List K
  union s t = s ++ minus t s

  -- s.issubset(t), s.isdisjoint(t) and s == t
  unfoldable pub is_subset : List K → List K → Bool
  is_subset s t = all (λ x. member x t) s

  unfoldable pub is_disjoint : List K → List K → Bool
  is_disjoint s t = all (λ x. not (member x t)) s

  unfoldable pub set_eq : List K → List K → Bool
  set_eq s t = is_subset s t && is_subset t s

  pub member-keep_if :
      (p : K → Bool) (s : List K) (k : K) → member k (keep_if p s) ≡ (p k && member k s)
  unfolding member
  member-keep_if p [] k = ground arith
  member-keep_if p (x ∷ xs) k = ground (arith, ==_iff x k, member-keep_if p xs k)

  pub member-append : (s t : List K) (k : K) → member k (s ++ t) ≡ (member k s || member k t)
  unfolding member
  member-append [] t k = refl
  member-append (x ∷ xs) t k = ground (arith, member-append xs t k)

  pub member-add : (j : K) (s : List K) (k : K) → member k (add j s) ≡ ((j == k) || member k s)
  unfolding member add
  member-add j s k = ground (arith, ==_iff j k)

  pub member-minus :
      (s t : List K) (k : K) → member k (minus s t) ≡ (member k s && not (member k t))
  unfolding minus
  member-minus s t k = ground (arith, member-keep_if (λ x. not (member x t)) s k)

  pub member-discard :
      (j : K) (s : List K) (k : K) → member k (discard j s) ≡ (member k s && not (k == j))
  unfolding discard
  member-discard j s k = ground (arith, member-keep_if (λ x. not (x == j)) s k)

  pub member-union : (s t : List K) (k : K) → member k (union s t) ≡ (member k s || member k t)
  unfolding union
  member-union s t k = ground (arith, member-append s (minus t s) k, member-minus t s k)

  -- A universally quantified test, read at one member.
  pub all-member :
      (p : K → Bool) (s : List K) (k : K) → all p s ≡ true → member k s ≡ true → p k ≡ true
  unfolding member
  all-member p [] k h m = cc
  all-member p (x ∷ xs) k h m = ground (arith, ==_iff x k, all-member p xs k)

  pub member-all :
      (p : K → Bool) (s : List K) → ((k : K) → member k s ≡ true → p k ≡ true) → all p s ≡ true
  unfolding member
  member-all p [] h = refl
  member-all p (x ∷ xs) h =
      ground (arith, ==_iff x x, h x, member-all p xs (λ k m. h k (ground arith)))

  pub is_subset-member :
      (s t : List K) (k : K) → is_subset s t ≡ true → member k s ≡ true → member k t ≡ true
  unfolding is_subset
  is_subset-member s t k h m = all-member (λ x. member x t) s k h m

  pub member-is_subset :
      (s t : List K) → ((k : K) → member k s ≡ true → member k t ≡ true) → is_subset s t ≡ true
  unfolding is_subset
  member-is_subset s t h = member-all (λ x. member x t) s h

  pub not_is_subset :
      (s t : List K) → is_subset s t ≡ false → (k : K) × (member k s ≡ true) × (member k t ≡ false)
  unfolding is_subset member
  not_is_subset [] t h = cc
  not_is_subset (x ∷ xs) t h = elim (Bool-cases (member x t)) [
    | inl inside ↦
        let (k, in_s, out_t) = not_is_subset xs t (ground arith) in (k, ground arith, out_t)
    | inr outside ↦ (x, ground (arith, ==_iff x x), outside)
  ]

  pub set_eq-member : (s t : List K) (k : K) → set_eq s t ≡ true → member k s ≡ member k t
  unfolding set_eq
  set_eq-member s t k h = ground (arith, is_subset-member s t k, is_subset-member t s k)

  pub is_subset-add : (s t : List K) (k : K) → is_subset s t ≡ true → is_subset s (add k t) ≡ true
  is_subset-add s t k h =
      member-is_subset s (add k t)
        λ j m. ground (arith, member-add k t j, is_subset-member s t j h m)

  -- `set(xs)`
  unfoldable pub to_set : List K → List K
  to_set [] = []
  to_set (x ∷ xs) = add x (to_set xs)

  pub member-to_set : (xs : List K) (k : K) → member k (to_set xs) ≡ member k xs
  unfolding to_set
  member-to_set [] k = refl
  member-to_set (x ∷ xs) k =
      rw (member-add x (to_set xs) k, member-to_set xs k) (unfold member in ground arith)

  -- Taking away nothing from an empty rest: `s - t` is empty exactly when `s` is a subset.
  pub is_nil-minus : (s t : List K) → is_nil (minus s t) ≡ is_subset s t
  unfolding minus is_subset
  is_nil-minus [] t = refl
  is_nil-minus (x ∷ xs) t = ground (arith, is_nil-minus xs t)

  pub length-minus-le : (s t : List K) → length (minus s t) ≤ length s
  unfolding minus
  length-minus-le [] t = omega arith
  length-minus-le (x ∷ xs) t = ground (arith, length-minus-le xs t)

  pub length-minus-lt :
      (s t : List K) (k : K) → member k s ≡ true → member k t ≡ true → length (minus s t) < length s
  unfolding minus member
  length-minus-lt [] t k h m = cc
  length-minus-lt (x ∷ xs) t k h m =
      ground (arith, ==_iff x k, length-minus-lt xs t k, length-minus-le xs t)

  pub member_self : (k : K) (s : List K) → member k (k ∷ s) ≡ true
  unfolding member
  member_self k s = ground (arith, ==_iff k k)
