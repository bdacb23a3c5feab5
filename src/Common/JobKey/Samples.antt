-- ===== src/Common/JobKey/Samples.antt =====
-- The path "c/r/e/n", with `\w` as the ASCII letters, digits and '_', on which the theorems are run.
use aurora_client.Base.{
  ℕ, ◌≡◌, refl, Bool, true, ◌&&◌, ◌||◌, [], ◌∷◌, ◌++◌, nat_beq, leb, ok, err, ◌↔◌,
}
use aurora_client.Common.JobKey.{
  Text, JobKey, parse_error, split_first, split, to_path, rest_matches, is_valid_identifier, init,
  from_parts, from_path, is_equal,
}
use aurora_client.Common.JobKey.Order.{is_equal_iff}
use aurora_client.Common.JobKey.RoundTrip.{from_path-to_path}

abbrev between : ℕ → ℕ → ℕ → Bool
between low high c = leb low c && leb c high

abbrev is_ascii_word : ℕ → Bool
is_ascii_word c = between 97 122 c || between 65 90 c || between 48 57 c || nat_beq c 95

abbrev key : JobKey
key = record { cluster = 99 ∷ []; role = 114 ∷ []; env = 101 ∷ []; name = 110 ∷ [] }

abbrev path : Text
path = 99 ∷ 47 ∷ 114 ∷ 47 ∷ 101 ∷ 47 ∷ 110 ∷ []

key_made : init is_ascii_word (99 ∷ []) (114 ∷ []) (101 ∷ []) (110 ∷ []) ≡ ok key
unfolding init is_valid_identifier rest_matches
key_made = refl

from_path-to_path_example : from_path is_ascii_word (to_path key) ≡ ok key
from_path-to_path_example =
    from_path-to_path is_ascii_word refl (99 ∷ []) (114 ∷ []) (101 ∷ []) (110 ∷ []) key refl
      key_made

key_parsed : from_path is_ascii_word path ≡ ok key
unfolding from_path from_parts split split_first init is_valid_identifier rest_matches
key_parsed = refl

-- A fifth part is an error.
too_long : from_path is_ascii_word (path ++ 47 ∷ 120 ∷ []) ≡ err parse_error
unfolding from_path from_parts split split_first
too_long = refl

-- A newline at the end of an identifier is accepted.
trailing_newline : is_valid_identifier is_ascii_word (110 ∷ 10 ∷ []) ≡ true
unfolding is_valid_identifier rest_matches
trailing_newline = refl

is_equal_iff_example : (is_equal key key ≡ true) ↔ (key ≡ key)
is_equal_iff_example =
    is_equal_iff is_ascii_word refl (99 ∷ []) (114 ∷ []) (101 ∷ []) (110 ∷ []) (99 ∷ []) (114 ∷ [])
      (101 ∷ []) (110 ∷ []) key key refl refl key_made key_made
