-- ===== src/Client/Updater/Ranges.antt =====
-- The ranges hold the instances, in order.
use aurora_client.Base.{
  ℕ, zero, suc, ◌+◌, ◌-◌, ◌≤◌, ◌≡◌, refl, sym, ap, ◌∙◌, true, Option, none, some, List, [], ◌∷◌,
  ◌++◌, arith, ◌==◌, Bool-cases, inl, inr,
}
use aurora_client.Base.Int.{ℤ, sub_ℕ, int_eq, beq_ℤ_iff}
use aurora_client.Client.Updater.{Range, key, group_ranges, instances_to_ranges}
use mathlib.Core.List.{append_assoc}

-- `n` numbers from `a` on
pub upto : ℕ → ℕ → List ℕ
upto a zero = []
upto a (suc n) = a ∷ upto (a + 1) n

-- The instances of a closed range.
abbrev pub span : ℕ → ℕ → List ℕ
span first last = upto first (last + 1 - first)

unfoldable pub expand : List Range → List ℕ
expand [] = []
expand (r ∷ rs) = span r.first r.last ++ expand rs

abbrev pub expand_ranges : Option (List Range) → List ℕ
expand_ranges none = []
expand_ranges (some rs) = expand rs

upto-snoc : (n a : ℕ) → upto a (suc n) ≡ upto a n ++ (a + n) ∷ []
unfolding upto
upto-snoc zero a = ap (λ x. x ∷ []) (omega arith)
upto-snoc (suc n) a =
    ap (◌∷◌ a) (upto-snoc n (a + 1) ∙ ap (λ x. upto (a + 1) n ++ x ∷ []) (omega arith))

span-next : (a b : ℕ) → a ≤ b → span a (b + 1) ≡ span a b ++ (b + 1) ∷ []
span-next a b h =
    ap (upto a) (omega arith) ∙ upto-snoc (b + 1 - a) a ∙ ap (λ x. span a b ++ x ∷ []) (omega arith)

span_self : (a : ℕ) → span a a ≡ a ∷ []
unfolding upto
span_self a = ap (upto a) one
  where
    one : a + 1 - a ≡ suc zero
    one = omega arith

span-grow :
    (start last x : ℕ) (xs : List ℕ)
    → start ≤ last
    → x ≡ last + 1
    → span start x ++ xs ≡ span start last ++ x ∷ xs
span-grow start last x xs h e =
    ap (λ y. span start y ++ xs) e
    ∙ ap (λ l. l ++ xs) (span-next start last h)
    ∙ append_assoc (span start last) ((last + 1) ∷ []) xs
    ∙ ap (λ y. span start last ++ y ∷ xs) (sym e)

same_key : (i x y : ℕ) → (sub_ℕ i x == sub_ℕ i y) ≡ true → x ≡ y
same_key i x y h = ground (arith, beq_ℤ_iff (sub_ℕ i x) (sub_ℕ i y))

key_shift : (i x : ℕ) → sub_ℕ (i + 1) (x + 1) ≡ sub_ℕ i x
key_shift i x = ground arith

expand-group :
    (xs : List ℕ) (k : ℤ) (start last index : ℕ)
    → start ≤ last
    → k ≡ sub_ℕ index (last + 1)
    → expand (group_ranges k start last index xs) ≡ span start last ++ xs
unfolding group_ranges expand
expand-group [] k start last index h e = refl
expand-group (x ∷ xs) k start last index h e = elim (Bool-cases (key index x == k)) [
  | inl same ↦
      let next : x ≡ last + 1 = same_key index x (last + 1) (rw e at same) in
      rw same (
        expand-group xs k start x (index + 1) (omega arith)
          (e ∙ ap (sub_ℕ index) (sym next) ∙ sym (key_shift index x))
        ∙ span-grow start last x xs h next)
  | inr other ↦ rw other (
      ap (λ l. span start last ++ l)
        (expand-group xs (key index x) x x (index + 1) (omega arith) (sym (key_shift index x))
          ∙ ap (λ l. l ++ xs) (span_self x)))
]

-- Listing the instances of the ranges in order gives back the instances, for every list of them.
pub expand-instances_to_ranges :
    (instances : List ℕ) → expand_ranges (instances_to_ranges instances) ≡ instances
unfolding instances_to_ranges
expand-instances_to_ranges [] = refl
expand-instances_to_ranges (x ∷ xs) =
    expand-group xs (key 0 x) x x 1 (omega arith) (sym (key_shift 0 x))
    ∙ ap (λ l. l ++ xs) (span_self x)
