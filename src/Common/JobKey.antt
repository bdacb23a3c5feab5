-- ===== src/Common/JobKey.antt =====
-- src/main/python/apache/aurora/common/aurora_job_key.py: `AuroraJobKey`, from and to its path. A
-- string is the list of its code points. Which of them `\w` matches is a parameter: a table of
-- Unicode, of which only that '/' is not in it is used.
pub mod RoundTrip
pub mod Order
mod Samples
use aurora_client.Base.{
  ℕ, zero, suc, ◌≡◌, Bool, true, false, not, ◌&&◌, ◌||◌, Option, none, some, List, [], ◌∷◌, ◌++◌,
  if◌then◌else◌, is_nil, nat_beq, ltb, Result, ok, err,
}

abbrev pub Text : Type 0
Text = List ℕ

abbrev pub slash : ℕ
slash = 47

abbrev newline : ℕ
newline = 10

pub record JobKey : Type 0 where
  pub cluster : Text
  pub role : Text
  pub env : Text
  pub name : Text

-- The thrift struct `JobKey`.
pub record ThriftJobKey : Type 0 where
  pub role : Text
  pub environment : Text
  pub name : Text

pub data KeyError : Type 0 where
  invalid_identifier parse_error : KeyError

-- What stands before the first '/', and what stands after it, if there is one.
unfoldable pub split_first : Text → Text × Option Text
split_first [] = ([], none)
split_first (c ∷ cs) =
    let (before, after) = split_first cs in
    if nat_beq c slash then ([], some cs) else (c ∷ before, after)

-- `path.split('/', n)`
unfoldable pub split : ℕ → Text → List Text
split zero s = s ∷ []
split (suc n) s = elim (split_first s).1 [
  | none ↦ (split_first s).0 ∷ []
  | some after ↦ (split_first s).0 ∷ split n after
]

unfoldable pub to_path : JobKey → Text
to_path k = k.cluster ++ slash ∷ (k.role ++ slash ∷ (k.env ++ slash ∷ k.name))

unfoldable pub to_thrift : JobKey → ThriftJobKey
to_thrift k = record { role = k.role; environment = k.env; name = k.name }

-- The keys of the query that `to_thrift_query` gives.
unfoldable pub to_thrift_query : JobKey → List ThriftJobKey
to_thrift_query k = to_thrift k ∷ []

-- `==` and `<` on strings.
unfoldable pub text_eq : Text → Text → Bool
text_eq [] [] = true
text_eq (c ∷ cs) (d ∷ ds) = nat_beq c d && text_eq cs ds
text_eq _ _ = false

unfoldable pub text_lt : Text → Text → Bool
text_lt s [] = false
text_lt [] (d ∷ ds) = true
text_lt (c ∷ cs) (d ∷ ds) = ltb c d || (nat_beq c d && text_lt cs ds)

-- `__eq__` and `__lt__` go by the paths.
unfoldable pub is_equal : JobKey → JobKey → Bool
is_equal k l = text_eq (to_path k) (to_path l)

unfoldable pub is_less : JobKey → JobKey → Bool
is_less k l = text_lt (to_path k) (to_path l)

module _ (is_word : ℕ → Bool) where
  -- `[\w\-\.]`
  abbrev pub is_identifier_char : ℕ → Bool
  is_identifier_char c = is_word c || nat_beq c 45 || nat_beq c 46

  -- `^[\w\-\.]+$`, by `match`: the `$` also matches before a newline at the end.
  unfoldable pub rest_matches : Text → Bool
  rest_matches [] = true
  rest_matches (c ∷ cs) =
      let rest = rest_matches cs in
      if is_identifier_char c then rest else nat_beq c newline && is_nil cs

  unfoldable pub is_valid_identifier : Text → Bool
  is_valid_identifier [] = false
  is_valid_identifier (c ∷ cs) = is_identifier_char c && rest_matches cs

  -- `__init__`
  unfoldable pub init : Text → Text → Text → Text → Result KeyError JobKey
  init cluster role env name =
      if is_valid_identifier role && is_valid_identifier env && is_valid_identifier name
      then ok (record { cluster = cluster; role = role; env = env; name = name })
      else err invalid_identifier

  -- Unpacking the parts raises unless there are four.
  unfoldable pub from_parts : List Text → Result KeyError JobKey
  from_parts (cluster ∷ role ∷ env ∷ name ∷ []) = init cluster role env name
  from_parts _ = err parse_error

  unfoldable pub from_path : Text → Result KeyError JobKey
  from_path path = from_parts (split 4 path)

  -- `from_thrift`
  unfoldable pub from_thrift : Text → ThriftJobKey → Result KeyError JobKey
  from_thrift cluster job_key = init cluster job_key.role job_key.environment job_key.name
