-- ===== src/Thermos/Planner/Schedule.antt =====
-- `satisfiable` of planner.py decides whether the dependencies can be met in some order.
use aurora_client.Base.{
  ℕ, zero, suc, ◌<◌, ◌≡◌, refl, ap, ◌⊎◌, inl, inr, Bool, true, false, none, some, List, [], ◌∷◌,
  arith, is_nil, length, string_eq, if◌then◌else◌, Bool-cases,
}
use aurora_client.Base.Sets.{member, minus, member-minus, member_self, length-minus-lt}
use aurora_client.Thermos.Planner.{
  Name, Dependencies, filter_runnable, filter_dependencies, rounds, satisfiable,
}
use aurora_client.Thermos.Planner.Runnable.{deps_of, deps_of-filter, member-filter_runnable}

-- Every dependency of a process is a process of a lower rank.
pub record IsRanked (rank : Name → ℕ) (ps : List Name) (ds : Dependencies) : Type 0 where
  pub known :
      (k d : Name) → member k ps ≡ true → member d (deps_of ds k) ≡ true → member d ps ≡ true
  pub lower : (k d : Name) → member k ps ≡ true → member d (deps_of ds k) ≡ true → rank d < rank k

List-cases : (s : List Name) → (s ≡ []) ⊎ ((x : Name) × (xs : List Name) × (s ≡ x ∷ xs))
List-cases [] = inl refl
List-cases (x ∷ xs) = inr (x, xs, refl)

is_nil-false : (s : List Name) (k : Name) → member k s ≡ true → is_nil s ≡ false
unfolding member
is_nil-false [] k h = cc
is_nil-false (x ∷ xs) k h = refl

pub nil_of_is_nil : (ps : List Name) (k : Name) → is_nil ps ≡ true → member k ps ≡ false
unfolding member
nil_of_is_nil [] k h = refl
nil_of_is_nil (x ∷ xs) k h = cc

empty_IsRanked : (ps : List Name) (ds : Dependencies) → is_nil ps ≡ true → IsRanked (λ _. 0) ps ds
empty_IsRanked ps ds h = record {
  known = λ k d m _. cc (nil_of_is_nil ps k h);
  lower = λ k d m _. cc (nil_of_is_nil ps k h);
}

module _ (ps : List Name) (ds : Dependencies) where
  abbrev R : List Name
  R = filter_runnable ps ds

  abbrev ps' : List Name
  ps' = minus ps R

  abbrev ds' : Dependencies
  ds' = filter_dependencies ds R

  later : (Name → ℕ) → Name → ℕ
  later rank k = if member k R then 0 else suc (rank k)

  later-IsRanked : (rank : Name → ℕ) → IsRanked rank ps' ds' → IsRanked (later rank) ps ds
  unfolding later
  later-IsRanked rank h = record {
    known = λ k d m n. ground (
      arith,
      member-filter_runnable ps ds k,
      member-filter_runnable ps ds d,
      deps_of-filter ds R k,
      member-minus ps R k,
      member-minus ps R d,
      member-minus (deps_of ds k) R d,
      h.known k d,
      is_nil-false (deps_of ds k) d n,
    );
    lower = λ k d m n. ground (
      arith,
      member-filter_runnable ps ds k,
      member-filter_runnable ps ds d,
      deps_of-filter ds R k,
      member-minus ps R k,
      member-minus ps R d,
      member-minus (deps_of ds k) R d,
      h.lower k d,
      is_nil-false (deps_of ds k) d n,
    );
  }

  rest-IsRanked : (rank : Name → ℕ) → IsRanked rank ps ds → IsRanked rank ps' ds'
  rest-IsRanked rank h = record {
    known = λ k d m n. ground (
      arith,
      deps_of-filter ds R k,
      member-minus ps R k,
      member-minus ps R d,
      member-minus (deps_of ds k) R d,
      h.known k d,
    );
    lower = λ k d m n. ground (
      arith,
      deps_of-filter ds R k,
      member-minus ps R k,
      member-minus (deps_of ds k) R d,
      h.lower k d,
    );
  }

  -- Going down the ranks ends at a process with no dependency.
  some_runnable :
      (rank : Name → ℕ)
      → IsRanked rank ps ds
      → (n : ℕ) (k : Name) → rank k < n
      → member k ps ≡ true
      → (j : Name) × (member j R ≡ true)
  some_runnable rank h zero k low m = absurd (omega arith)
  some_runnable rank h (suc n) k low m = elim (List-cases (deps_of ds k)) [
    | inl e ↦ (k, rw (member-filter_runnable ps ds k, e, m))
    | inr (d, rest, e) ↦
        let md : member d (deps_of ds k) ≡ true = rw e (member_self d rest) in
        let lt : rank d < rank k = h.lower k d m md in
        some_runnable rank h n d (omega arith) (h.known k d m md)
  ]

  all_gone : (rank : Name → ℕ) → IsRanked rank ps ds → is_nil R ≡ true → is_nil ps ≡ true
  all_gone rank r e = elim (List-cases ps) [
    | inl gone ↦ rw gone
    | inr (x, xs, split) ↦
        let (j, here) =
          some_runnable rank r (suc (rank x)) x (omega arith) (rw split (member_self x xs)) in
        cc (is_nil-false R j here)
  ]

  rounds_stop : (fuel : ℕ) → is_nil R ≡ true → rounds (suc fuel) ps ds ≡ some (is_nil ps)
  unfolding rounds
  rounds_stop fuel e = rw e

  rounds_go : (fuel : ℕ) → is_nil R ≡ false → rounds (suc fuel) ps ds ≡ rounds fuel ps' ds'
  unfolding rounds
  rounds_go fuel e = rw e

  fewer : is_nil R ≡ false → length ps' < length ps
  fewer e = elim (List-cases R) [
    | inl no_runnable ↦ ground (arith, ap is_nil no_runnable)
    | inr (x, xs, split) ↦
        let here : member x R ≡ true = rw split (member_self x xs) in
        length-minus-lt ps R x (ground (arith, member-filter_runnable ps ds x, here)) here
  ]

rounds_total :
    (fuel : ℕ) (ps : List Name) (ds : Dependencies)
    → length ps < fuel
    → (b : Bool) × (rounds fuel ps ds ≡ some b)
rounds_total zero ps ds h = absurd (omega arith)
rounds_total (suc fuel) ps ds h = elim (Bool-cases (is_nil (R ps ds))) [
  | inl e ↦ (is_nil ps, rounds_stop ps ds fuel e)
  | inr e ↦
      rw (rounds_go ps ds fuel e)
        (rounds_total fuel (ps' ps ds) (ds' ps ds) (omega (arith, fewer ps ds e)))
]

out_of_fuel : (ps : List Name) (ds : Dependencies) → rounds zero ps ds ≡ none
unfolding rounds
out_of_fuel ps ds = refl

rounds_sound :
    (fuel : ℕ) (ps : List Name) (ds : Dependencies)
    → rounds fuel ps ds ≡ some true
    → (rank : Name → ℕ) × IsRanked rank ps ds
rounds_sound zero ps ds h = cc (out_of_fuel ps ds)
rounds_sound (suc fuel) ps ds h = elim (Bool-cases (is_nil (R ps ds))) [
  | inl e ↦ (λ _. 0, empty_IsRanked ps ds (ground (arith, rounds_stop ps ds fuel e)))
  | inr e ↦
      let (rank, ranked) =
        rounds_sound fuel (ps' ps ds) (ds' ps ds) (rw (← rounds_go ps ds fuel e) h) in
      (later ps ds rank, later-IsRanked ps ds rank ranked)
]

rounds_complete :
    (fuel : ℕ) (rank : Name → ℕ) (ps : List Name) (ds : Dependencies)
    → IsRanked rank ps ds
    → length ps < fuel
    → rounds fuel ps ds ≡ some true
rounds_complete zero rank ps ds r h = absurd (omega arith)
rounds_complete (suc fuel) rank ps ds r h = elim (Bool-cases (is_nil (R ps ds))) [
  | inl e ↦ rw (rounds_stop ps ds fuel e) (ap some (all_gone ps ds rank r e))
  | inr e ↦ rw (rounds_go ps ds fuel e) (
      rounds_complete fuel rank (ps' ps ds) (ds' ps ds) (rest-IsRanked ps ds rank r)
        (omega (arith, fewer ps ds e)))
]

-- The loop of `satisfiable` ends, with the fuel that it is given, whatever the processes and the
-- dependencies are.
pub satisfiable_total :
    (ps : List Name) (ds : Dependencies) → (b : Bool) × (satisfiable ps ds ≡ some b)
unfolding satisfiable
satisfiable_total ps ds = rounds_total (suc (length ps)) ps ds (omega arith)

-- When `satisfiable` answers true, the processes can be ranked so that each dependency of a
-- process is itself a process, of a lower rank: there is no cycle and no unknown dependency.
pub satisfiable-IsRanked :
    (ps : List Name) (ds : Dependencies)
    → satisfiable ps ds ≡ some true
    → (rank : Name → ℕ) × IsRanked rank ps ds
unfolding satisfiable
satisfiable-IsRanked ps ds = rounds_sound (suc (length ps)) ps ds

-- When the processes can be ranked so that each dependency of a process is itself a process, of a
-- lower rank, `satisfiable` answers true.
pub IsRanked-satisfiable :
    (ps : List Name) (ds : Dependencies) (rank : Name → ℕ)
    → IsRanked rank ps ds
    → satisfiable ps ds ≡ some true
unfolding satisfiable
IsRanked-satisfiable ps ds rank r = rounds_complete (suc (length ps)) rank ps ds r (omega arith)
