-- ===== src/Common/JobKey/Order.antt =====
-- src/main/python/apache/aurora/common/aurora_job_key.py: how job keys compare.
use aurora_client.Base.{ℕ, ◌≡◌, refl, Bool, true, false, [], ◌∷◌, ok, arith, ◌↔◌}
use aurora_client.Common.JobKey.{
  Text, JobKey, slash, text_eq, text_lt, is_equal, is_less, to_path, init, from_thrift, to_thrift,
}
use aurora_client.Common.JobKey.RoundTrip.{has_no_slash, from_path-to_path}

text_eq_sound : (s t : Text) → text_eq s t ≡ true → s ≡ t
unfolding text_eq
text_eq_sound [] [] h = refl
text_eq_sound (c ∷ cs) (d ∷ ds) h = ground (arith, text_eq_sound cs ds)
text_eq_sound [] (d ∷ ds) h = cc
text_eq_sound (c ∷ cs) [] h = cc

text_eq_self : (s : Text) → text_eq s s ≡ true
unfolding text_eq
text_eq_self [] = refl
text_eq_self (c ∷ cs) = ground (arith, text_eq_self cs)

-- Exactly one of three.
unfoldable pub one_of : Bool → Bool → Bool → Bool
one_of true false false = true
one_of false true false = true
one_of false false true = true
one_of _ _ _ = false

text_lt_trichotomy : (s t : Text) → one_of (text_lt s t) (text_eq s t) (text_lt t s) ≡ true
unfolding text_lt text_eq one_of
text_lt_trichotomy [] [] = refl
text_lt_trichotomy [] (d ∷ ds) = refl
text_lt_trichotomy (c ∷ cs) [] = refl
text_lt_trichotomy (c ∷ cs) (d ∷ ds) = ground (arith, text_lt_trichotomy cs ds)

text_lt_trans : (s t u : Text) → text_lt s t ≡ true → text_lt t u ≡ true → text_lt s u ≡ true
unfolding text_lt
text_lt_trans s [] u h k = absurd (ground arith)
text_lt_trans s (d ∷ ds) [] h k = absurd (ground arith)
text_lt_trans [] (d ∷ ds) (e ∷ es) h k = refl
text_lt_trans (c ∷ cs) (d ∷ ds) (e ∷ es) h k = ground (arith, text_lt_trans cs ds es)

-- The order of job keys is total, and equal keys are neither below nor above each other.
pub is_less_trichotomy : (k l : JobKey) → one_of (is_less k l) (is_equal k l) (is_less l k) ≡ true
unfolding is_less is_equal
is_less_trichotomy k l = text_lt_trichotomy (to_path k) (to_path l)

pub is_less_trans : (k l m : JobKey) → is_less k l ≡ true → is_less l m ≡ true → is_less k m ≡ true
unfolding is_less
is_less_trans k l m h i = text_lt_trans (to_path k) (to_path l) (to_path m) h i

module _ (is_word : ℕ → Bool) (slash_apart : is_word slash ≡ false) where
  -- Of two keys that the constructor accepts, with no '/' in their clusters, `==` says whether they
  -- are the same key.
  pub is_equal_iff :
      (cluster role env name cluster' role' env' name' : Text) (k l : JobKey)
      → has_no_slash cluster ≡ true
      → has_no_slash cluster' ≡ true
      → init is_word cluster role env name ≡ ok k
      → init is_word cluster' role' env' name' ≡ ok l
      → (is_equal k l ≡ true) ↔ (k ≡ l)
  unfolding is_equal
  is_equal_iff cluster role env name cluster' role' env' name' k l h h' made made' = (
    (λ same. ground (
      arith,
      text_eq_sound (to_path k) (to_path l) same,
      from_path-to_path is_word slash_apart cluster role env name k h made,
      from_path-to_path is_word slash_apart cluster' role' env' name' l h' made',
    )),
    (λ same. ground (arith, same, text_eq_self (to_path l))),
  )

  -- A key that the constructor accepts comes back from its thrift struct.
  pub from_thrift-to_thrift :
      (cluster role env name : Text) (k : JobKey)
      → init is_word cluster role env name ≡ ok k
      → from_thrift is_word k.cluster (to_thrift k) ≡ ok k
  unfolding from_thrift to_thrift init
  from_thrift-to_thrift cluster role env name k made = ground (arith, made)
