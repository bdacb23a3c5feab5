-- ===== src/Thermos/TaskPlanner/Extract.antt =====
-- What `extract_dependencies` returns.
use aurora_client.Base.{
  ◌≡◌, refl, Bool, true, false, not, ◌&&◌, ◌||◌, Option, none, some, List, [], ◌∷◌, arith,
  string_eq, if◌then◌else◌, ok, ==_iff, ◌==◌, Result-cases, inl, inr, Bool-cases, map, subst,
}
use aurora_client.Base.Sets.{member, add, is_subset, member-add, member-to_set, to_set}
use aurora_client.Base.Dicts.{Dict, get, put, get-put, keys, member-keys}
use aurora_client.Thermos.Planner.{Name, Dependencies}
use aurora_client.Thermos.Planner.Runnable.{deps_of}
use aurora_client.Thermos.TaskPlanner.{
  Process, Task, selected, put_all, add_pair, add_order, add_constraint, add_constraints,
  extract_dependencies,
}

-- `d` comes directly before `k` somewhere in an order.
unfoldable pub precedes : List Name → Name → Name → Bool
precedes [] d k = false
precedes (a ∷ []) d k = false
precedes (a ∷ b ∷ rest) d k = (a == d && b == k) || precedes (b ∷ rest) d k

-- Some constraint over selected processes has `d` directly before `k`.
unfoldable pub required : List Name → List (List Name) → Name → Name → Bool
required names [] d k = false
required names (c ∷ cs) d k = (is_subset c names && precedes c d k) || required names cs d k

deps_of-put :
    (ds : Dependencies) (k : Name) (s : List Name) (j : Name)
    → deps_of (put ds k s) j ≡ (if k == j then s else deps_of ds j)
unfolding deps_of
deps_of-put ds k s j = ground (arith, get-put ds k s j)

module _ (pm : Dict Name Process) where
  add_pair-ok :
      (ds ds' : Dependencies) (a b : Name)
      → add_pair pm ds a b ≡ ok ds'
      → ds' ≡ put ds b (add a (deps_of ds b))
  unfolding add_pair deps_of
  add_pair-ok ds ds' a b e = ground arith

  add_pair-member :
      (ds ds' : Dependencies) (a b d k : Name)
      → add_pair pm ds a b ≡ ok ds'
      → member d (deps_of ds' k) ≡ (member d (deps_of ds k) || (a == d && b == k))
  add_pair-member ds ds' a b d k e = ground (
    arith,
    add_pair-ok ds ds' a b e,
    deps_of-put ds b (add a (deps_of ds b)) k,
    member-add a (deps_of ds b) d,
    ==_iff a d,
    ==_iff b k,
  )

  add_order-member :
      (order : List Name) (ds ds' : Dependencies) (d k : Name)
      → add_order pm ds order ≡ ok ds'
      → member d (deps_of ds' k) ≡ (member d (deps_of ds k) || precedes order d k)
  unfolding add_order precedes
  add_order-member [] ds ds' d k e = ground arith
  add_order-member (a ∷ []) ds ds' d k e = ground arith
  add_order-member (a ∷ b ∷ rest) ds ds' d k e = elim (Result-cases (add_pair pm ds a b)) [
    | inl (more, e') ↦
        ground (arith, add_pair-member ds more a b d k e', add_order-member (b ∷ rest) more ds' d k)
    | inr (er, e') ↦ ground arith
  ]

  add_constraint-member :
      (c : List Name) (ds ds' : Dependencies) (d k : Name)
      → add_constraint pm ds c ≡ ok ds'
      → member d (deps_of ds' k)
        ≡ (member d (deps_of ds k) || (is_subset c (keys pm) && precedes c d k))
  unfolding add_constraint
  add_constraint-member c ds ds' d k e = ground (arith, add_order-member c ds ds' d k)

  add_constraints-member :
      (cs : List (List Name)) (ds ds' : Dependencies) (d k : Name)
      → add_constraints pm ds cs ≡ ok ds'
      → member d (deps_of ds' k) ≡ (member d (deps_of ds k) || required (keys pm) cs d k)
  unfolding add_constraints required
  add_constraints-member [] ds ds' d k e = ground arith
  add_constraints-member (c ∷ cs) ds ds' d k e = elim (Result-cases (add_constraint pm ds c)) [
    | inl (more, e') ↦
        ground
          (arith, add_constraint-member c ds more d k e', add_constraints-member cs more ds' d k)
    | inr (er, e') ↦ ground arith
  ]

  -- The rules for a dependency of `k` upon `d`: both are selected, `d` is no daemon, and `d` is
  -- ephemeral only if `k` is.
  abbrev pub allowed : Name → Name → Bool
  allowed d k = elim (get pm d) [
    | none ↦ false
    | some before ↦ elim (get pm k) [
      | none ↦ false
      | some after ↦ not before.daemon && (after.ephemeral || not before.ephemeral)
    ]
  ]

  add_pair-allowed :
      (ds ds' : Dependencies) (a b : Name) → add_pair pm ds a b ≡ ok ds' → allowed a b ≡ true
  unfolding add_pair
  add_pair-allowed ds ds' a b e = ground arith

  add_order-allowed :
      (order : List Name) (ds ds' : Dependencies) (d k : Name)
      → add_order pm ds order ≡ ok ds'
      → precedes order d k ≡ true
      → allowed d k ≡ true
  unfolding add_order precedes
  add_order-allowed [] ds ds' d k e h = cc
  add_order-allowed (a ∷ []) ds ds' d k e h = cc
  add_order-allowed (a ∷ b ∷ rest) ds ds' d k e h = elim (Result-cases (add_pair pm ds a b)) [
    | inl (more, e') ↦ elim (Bool-cases (a == d && b == k)) [
      | inl here ↦
          let ad : a ≡ d = ground (arith, ==_iff a d) in
          let bk : b ≡ k = ground (arith, ==_iff b k) in
          subst (λ x. allowed x k ≡ true) ad
            (subst (λ x. allowed a x ≡ true) bk (add_pair-allowed ds more a b e'))
      | inr later ↦ add_order-allowed (b ∷ rest) more ds' d k (ground arith) (ground arith)
    ]
    | inr (er, e') ↦ ground arith
  ]

  add_constraints-allowed :
      (cs : List (List Name)) (ds ds' : Dependencies) (d k : Name)
      → add_constraints pm ds cs ≡ ok ds'
      → required (keys pm) cs d k ≡ true
      → allowed d k ≡ true
  unfolding add_constraints required
  add_constraints-allowed [] ds ds' d k e h = cc
  add_constraints-allowed (c ∷ cs) ds ds' d k e h = elim (Result-cases (add_constraint pm ds c)) [
    | inl (more, e') ↦ elim (Bool-cases (is_subset c (keys pm) && precedes c d k)) [
      | inl here ↦
          add_order-allowed c ds more d k (unfold add_constraint in ground arith) (ground arith)
      | inr later ↦ add_constraints-allowed cs more ds' d k (ground arith) (ground arith)
    ]
    | inr (er, e') ↦ ground arith
  ]

put_all-keys :
    (ps : List Process) (pm : Dict Name Process) (k : Name)
    → member k (keys (put_all pm ps)) ≡ (member k (keys pm) || member k (map (λ p. p.name) ps))
unfolding put_all member
put_all-keys [] pm k = ground arith
put_all-keys (p ∷ ps) pm k = ground (
  arith,
  put_all-keys ps (put pm p.name p) k,
  member-keys (put pm p.name p) k,
  member-keys pm k,
  get-put pm p.name p k,
)

member_nil : (k : Name) → member k [] ≡ false
unfolding member
member_nil k = refl

deps_of-nil : (d k : Name) → member d (deps_of [] k) ≡ false
unfolding member deps_of get
deps_of-nil d k = refl

extract_inversion :
    (task : Task) (process_filter : Option (Process → Bool)) (names : List Name) (ds : Dependencies)
    → extract_dependencies task process_filter ≡ ok (names, ds)
    → let pm = put_all [] (selected process_filter task) in
      (add_constraints pm [] task.constraints ≡ ok ds) × (names ≡ to_set (keys pm))
unfolding extract_dependencies
extract_inversion task process_filter names ds e = (ground arith, ground arith)

-- What a successful extraction returns: the names of the selected processes; as dependencies of
-- a process exactly those that come directly before it in a constraint whose names are all
-- selected; and each of them obeys the rules on daemon and ephemeral processes.
pub extract_dependencies-ok :
    (task : Task) (process_filter : Option (Process → Bool)) (names : List Name) (ds : Dependencies)
    → extract_dependencies task process_filter ≡ ok (names, ds)
    → let ps = selected process_filter task in
      let pm = put_all [] ps in
      ((k : Name) → member k names ≡ member k (map (λ p. p.name) ps))
      × ((d k : Name) → member d (deps_of ds k) ≡ required (keys pm) task.constraints d k)
      × ((d k : Name) → (not (member d (deps_of ds k)) || allowed pm d k) ≡ true)
extract_dependencies-ok task process_filter names ds e = (
  λ k. ground (arith, built.1, member-to_set (keys pm) k, put_all-keys ps [] k, member_nil k),
  exact,
  λ d k. elim (Bool-cases (member d (deps_of ds k))) [
    | inl m ↦ ground (
      arith,
      add_constraints-allowed pm task.constraints [] ds d k built.0 (ground (arith, exact d k)),
    )
    | inr m ↦ ground arith
  ],
)
  where
    ps : List Process
    ps = selected process_filter task

    pm : Dict Name Process
    pm = put_all [] ps

    built : (add_constraints pm [] task.constraints ≡ ok ds) × (names ≡ to_set (keys pm))
    built = extract_inversion task process_filter names ds e

    exact : (d k : Name) → member d (deps_of ds k) ≡ required (keys pm) task.constraints d k
    exact d k =
        ground
          (arith, add_constraints-member pm task.constraints [] ds d k built.0, deps_of-nil d k)
