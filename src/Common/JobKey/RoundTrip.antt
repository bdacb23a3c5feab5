-- ===== src/Common/JobKey/RoundTrip.antt =====
-- Paths and keys are the same thing.
use aurora_client.Base.{
  ℕ, ◌≡◌, refl, Bool, true, false, not, Option, none, some, [], ◌∷◌, ◌++◌, nat_beq, ok, all, arith,
  Option-cases, Bool-cases, inl, inr,
}
use aurora_client.Common.JobKey.{
  Text, slash, JobKey, split_first, split, to_path, rest_matches, is_valid_identifier, init,
  from_parts, from_path,
}

abbrev pub has_no_slash : Text → Bool
has_no_slash = all (λ c. not (nat_beq c slash))

split_first-none : (s : Text) → has_no_slash s ≡ true → split_first s ≡ (s, none)
unfolding split_first
split_first-none [] h = refl
split_first-none (c ∷ cs) h = ground (arith, split_first-none cs)

split_first-append :
    (s rest : Text) → has_no_slash s ≡ true → split_first (s ++ slash ∷ rest) ≡ (s, some rest)
unfolding split_first
split_first-append [] rest h = refl
split_first-append (c ∷ cs) rest h = ground (arith, split_first-append cs rest)

-- The parts that a path was split into, joined again.
joined : Text → Option Text → Text
joined before none = before
joined before (some after) = before ++ slash ∷ after

split_first-joined : (s : Text) → joined (split_first s).0 (split_first s).1 ≡ s
unfolding split_first joined
split_first-joined [] = refl
split_first-joined (c ∷ cs) = elim (Bool-cases (nat_beq c slash)) [
  | inl same ↦ ground arith
  | inr other ↦ elim (Option-cases (split_first cs).1) [
    | inl last ↦ ground (arith, split_first-joined cs)
    | inr (after, e) ↦ ground (arith, split_first-joined cs)
  ]
]

four_parts :
    (a b c d : Text)
    → has_no_slash a ≡ true
    → has_no_slash b ≡ true
    → has_no_slash c ≡ true
    → has_no_slash d ≡ true
    → split 4 (a ++ slash ∷ (b ++ slash ∷ (c ++ slash ∷ d))) ≡ a ∷ b ∷ c ∷ d ∷ []
unfolding split
four_parts a b c d ha hb hc hd = ground (
  arith,
  split_first-append a (b ++ slash ∷ (c ++ slash ∷ d)) ha,
  split_first-append b (c ++ slash ∷ d) hb,
  split_first-append c d hc,
  split_first-none d hd,
)

module _ (is_word : ℕ → Bool) (slash_apart : is_word slash ≡ false) where
  rest_has_no_slash : (s : Text) → rest_matches is_word s ≡ true → has_no_slash s ≡ true
  unfolding rest_matches
  rest_has_no_slash [] h = refl
  rest_has_no_slash (c ∷ cs) h = ground (arith, rest_has_no_slash cs)

  valid_has_no_slash : (s : Text) → is_valid_identifier is_word s ≡ true → has_no_slash s ≡ true
  unfolding is_valid_identifier
  valid_has_no_slash [] h = refl
  valid_has_no_slash (c ∷ cs) h = ground (arith, rest_has_no_slash cs)

  -- The path of a key that the constructor accepts is parsed back to the key, if there is no '/' in
  -- its cluster, which the constructor does not check.
  pub from_path-to_path :
      (cluster role env name : Text) (k : JobKey)
      → has_no_slash cluster ≡ true
      → init is_word cluster role env name ≡ ok k
      → from_path is_word (to_path k) ≡ ok k
  unfolding from_path to_path from_parts init
  from_path-to_path cluster role env name k h e = ground (
    arith,
    four_parts cluster role env name h,
    valid_has_no_slash role,
    valid_has_no_slash env,
    valid_has_no_slash name,
  )

-- The parts of a path that has exactly three '/'.
abbrev to_text : Text → Text → Text → Text → Text
to_text a b c d = a ++ slash ∷ (b ++ slash ∷ (c ++ slash ∷ d))

module _ (is_word : ℕ → Bool) where
  init-to_path :
      (a b c d : Text) (k : JobKey) → init is_word a b c d ≡ ok k → to_path k ≡ to_text a b c d
  unfolding init to_path
  init-to_path a b c d k e = ground arith

  -- The path of a key that was parsed is the path that was parsed.
  pub to_path-from_path :
      (path : Text) (k : JobKey) → from_path is_word path ≡ ok k → to_path k ≡ path
  unfolding from_path from_parts split joined
  to_path-from_path path k e = elim (Option-cases (split_first path).1) [
    | inl one ↦ ground arith
    | inr (r1, e1) ↦ elim (Option-cases (split_first r1).1) [
      | inl two ↦ ground arith
      | inr (r2, e2) ↦ elim (Option-cases (split_first r2).1) [
        | inl three ↦ ground arith
        | inr (r3, e3) ↦ elim (Option-cases (split_first r3).1) [
          | inl four ↦ ground (
            arith,
            init-to_path (split_first path).0 (split_first r1).0 (split_first r2).0
                (split_first r3).0 k,
            split_first-joined path,
            split_first-joined r1,
            split_first-joined r2,
            split_first-joined r3,
          )
          | inr (r4, e4) ↦ ground arith
        ]
      ]
    ]
  ]
