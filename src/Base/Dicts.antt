-- ===== src/Base/Dicts.antt =====
-- Python's `dict`: an association list with one entry for a key, in the order of insertion.
use mathlib.Core.Path.{◌≡◌, refl}
use mathlib.Core.Bool.{Bool}
use mathlib.Core.Logic.{inl, inr}
use mathlib.Core.Option
use mathlib.Core.Option.{Option, none, some}
use mathlib.Core.List.{List, [], ◌∷◌, ◌++◌}
use native.Mathlib.Omega.{arith}
use aurora_client.Base.Tests.{if◌then◌else◌, is_some, Bool-cases}
use aurora_client.Base.Lists.{keep_if}
use aurora_client.Base.Keys.{Eq, ◌==◌, ==_iff}
use aurora_client.Base.Sets.{member}

abbrev pub Dict : Type 0 → Type 0 → Type 0
Dict K V = List (K × V)

module _ {K V : Type 0} ⦃e : Eq K⦄ where
  -- d.get(k)
  unfoldable pub get : Dict K V → K → Option V
  get [] k = none
  get ((j, v) ∷ d) k = if j == k then some v else get d k

  -- d[k] = v
  unfoldable pub put : Dict K V → K → V → Dict K V
  put [] k v = (k, v) ∷ []
  put ((j, w) ∷ d) k v = if j == k then (j, v) ∷ d else (j, w) ∷ put d k v

  -- d.pop(k)
  unfoldable pub remove : Dict K V → K → Dict K V
  remove [] k = []
  remove ((j, v) ∷ d) k = if j == k then remove d k else (j, v) ∷ remove d k

  abbrev pub has : Dict K V → K → Bool
  has d k = is_some (get d k)

  pub get-nil : (k : K) → get [] k ≡ none
  unfolding get
  get-nil k = refl

  pub get-put :
      (d : Dict K V) (k : K) (v : V) (j : K)
      → get (put d k v) j ≡ (if k == j then some v else get d j)
  unfolding get put
  get-put [] k v j = refl
  get-put ((i, w) ∷ d) k v j = ground (arith, ==_iff i k, ==_iff i j, ==_iff k j, get-put d k v j)

  pub get-remove :
      (d : Dict K V) (k j : K) → get (remove d k) j ≡ (if k == j then none else get d j)
  unfolding get remove
  get-remove [] k j = ground arith
  get-remove ((i, w) ∷ d) k j = ground (arith, ==_iff i k, ==_iff i j, ==_iff k j, get-remove d k j)

  pub get-put_self : (d : Dict K V) (k : K) (v : V) → get (put d k v) k ≡ some v
  get-put_self d k v = ground (arith, get-put d k v k, ==_iff k k)

  -- `set(d)`
  abbrev pub keys : Dict K V → List K
  keys [] = []
  keys ((j, v) ∷ d) = j ∷ keys d

  pub member-keys : (d : Dict K V) (k : K) → member k (keys d) ≡ has d k
  unfolding member get
  member-keys [] k = refl
  member-keys ((j, v) ∷ d) k = ground (arith, member-keys d k)

  -- `d.get(k, v)`
  abbrev pub get_default : Dict K V → K → V → V
  get_default d k v = Option.get_or (get d k) v

-- `d[k].append(x)` of a defaultdict of lists
module _ {K X : Type 0} ⦃e : Eq K⦄ where
  unfoldable pub append_at : Dict K (List X) → K → X → Dict K (List X)
  append_at d k x = put d k (get_default d k [] ++ x ∷ [])

  pub get-append_at :
      (d : Dict K (List X)) (k : K) (x : X) (j : K)
      → get_default (append_at d k x) j []
        ≡ (if k == j then get_default d j [] ++ x ∷ [] else get_default d j [])
  unfolding append_at
  get-append_at d k x j = ground (arith, get-put d k (get_default d k [] ++ x ∷ []) j, ==_iff k j)

-- No key has two entries, so that a comprehension over the entries keeps or drops a key as a whole.
module _ {K V : Type 0} ⦃e : Eq K⦄ where
  unfoldable pub IsDict : Dict K V → Type 0
  IsDict [] = Unit
  IsDict ((j, v) ∷ d) = (get d j ≡ none) × IsDict d

  pub put-IsDict : (d : Dict K V) (k : K) (v : V) → IsDict d → IsDict (put d k v)
  unfolding IsDict put get
  put-IsDict [] k v _ = (refl, tt)
  put-IsDict ((j, w) ∷ d) k v (new, rest) = elim (Bool-cases (j == k)) [
    | inl same ↦ rw same (new, rest)
    | inr other ↦
        rw other (ground (arith, get-put d k v j, ==_iff k j, ==_iff j k), put-IsDict d k v rest)
  ]

  -- `{k: v for k, v in d.items() if p(v)}`
  unfoldable pub keep_values : (V → Bool) → Dict K V → Dict K V
  keep_values p d = keep_if (λ entry. p entry.1) d

  pub get-keep_none :
      (p : V → Bool) (d : Dict K V) (k : K) → get d k ≡ none → get (keep_values p d) k ≡ none
  unfolding get keep_values
  get-keep_none p [] k h = refl
  get-keep_none p ((j, v) ∷ d) k h = ground (arith, get-keep_none p d k)

  pub get-keep_values :
      (p : V → Bool) (d : Dict K V) (k : K) (v : V)
      → IsDict d
      → get d k ≡ some v
      → get (keep_values p d) k ≡ (if p v then some v else none)
  unfolding get keep_values IsDict
  get-keep_values p [] k v _ h = cc
  get-keep_values p ((j, w) ∷ d) k v (new, rest) h =
      ground (arith, get-keep_values p d k v rest, get-keep_none p d k, ==_iff j k)

-- `{k: f(v) for k, v in d.items()}`
module _ {K V W : Type 0} ⦃e : Eq K⦄ where
  unfoldable pub map_values : (V → W) → Dict K V → Dict K W
  map_values f [] = []
  map_values f ((j, v) ∷ d) = (j, f v) ∷ map_values f d

  pub get-map_values :
      (f : V → W) (d : Dict K V) (k : K) → get (map_values f d) k ≡ Option.map f (get d k)
  unfolding map_values get
  get-map_values f [] k = refl
  get-map_values f ((j, v) ∷ d) k = ground (arith, get-map_values f d k)

  pub map_values-put :
      (f : V → W) (d : Dict K V) (k : K) (v : V)
      → map_values f (put d k v) ≡ put (map_values f d) k (f v)
  unfolding map_values put
  map_values-put f [] k v = refl
  map_values-put f ((j, w) ∷ d) k v = ground (arith, map_values-put f d k v)

-- `{k: f(k) for k in ks}`
module _ {K V : Type 0} ⦃e : Eq K⦄ where
  unfoldable pub tabulate : (K → V) → List K → Dict K V
  tabulate f [] = []
  tabulate f (k ∷ ks) = (k, f k) ∷ tabulate f ks

  pub get-tabulate :
      (f : K → V) (ks : List K) (k : K)
      → get (tabulate f ks) k ≡ (if member k ks then some (f k) else none)
  unfolding tabulate get member
  get-tabulate f [] k = refl
  get-tabulate f (j ∷ ks) k = ground (arith, ==_iff j k, get-tabulate f ks k)
