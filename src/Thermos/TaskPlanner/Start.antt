-- ===== src/Thermos/TaskPlanner/Start.antt =====
-- A new task planner is sound, and when a sound one is complete.
use mathlib.Core.Path.{fun_ext}
use aurora_client.Base.{
  ap, ◌≡◌, refl, Bool, true, false, ◌||◌, Option, none, some, List, [], ◌∷◌, map, arith, string_eq,
  ok, Result-cases, inl, inr, is_some, keep_if, all,
}
use aurora_client.Base.Sets.{
  member, to_set, member-to_set, union, set_eq, is_subset, member-union, member-is_subset,
}
use aurora_client.Base.Dicts.{Dict, get, put, get-put, has}
use aurora_client.Thermos.Planner
use aurora_client.Thermos.Planner.{
  Name, Planner, Error, Call, resets, runs, finishes, fails, key_error, Dependencies,
}
use aurora_client.Thermos.Planner.Invariant.{init-IsValid}
use aurora_client.Thermos.TaskPlanner.{
  is_complete, Process, Task, TaskPlanner, TaskAttributes, attributes_of, selected, put_attributes,
  extract_dependencies, init, count,
}
use aurora_client.Thermos.TaskPlanner.Extract.{extract_dependencies-ok}
use aurora_client.Thermos.TaskPlanner.Sound.{IsSound}

put_attributes-has :
    (ps : List Process) (d : Dict Name TaskAttributes) (k : Name)
    → has (put_attributes d ps) k ≡ (has d k || member k (map (λ p. p.name) ps))
unfolding put_attributes member
put_attributes-has [] d k = ground arith
put_attributes-has (p ∷ ps) d k = ground (
  arith,
  put_attributes-has ps (put d p.name (attributes_of p)) k,
  get-put d p.name (attributes_of p) k,
)

init_inversion :
    (task : Task) (f : Option (Process → Bool)) (t : TaskPlanner)
    → init task f ≡ ok t
    → (names : List Name) × (ds : Dependencies) × (extract_dependencies task f ≡ ok (names, ds))
      × (Planner.init names ds ≡ ok t.planner)
      × (t.attributes ≡ put_attributes [] (selected f task))
      × (t.failures ≡ [])
      × (t.ephemerals ≡ to_set (map (λ p. p.name) (keep_if (λ p. p.ephemeral) (selected f task))))
unfolding init
init_inversion task f t e = elim (Result-cases (extract_dependencies task f)) [
  | inl ((names, ds), e') ↦ elim (Result-cases (Planner.init names ds)) [
    | inl (p, e'') ↦ (names, ds, e', ground arith, ground arith, ground arith, ground arith)
    | inr (er, e'') ↦ ground arith
  ]
  | inr (er, e') ↦ ground arith
]

start_fields :
    (names : List Name) (ds : Dependencies) (p : Planner)
    → Planner.init names ds ≡ ok p
    → (p.processes ≡ to_set names) × (p.finished ≡ [])
unfolding Planner.init Planner.start
start_fields names ds p e = (ground arith, ground arith)

kept_names :
    (keep : Process → Bool) (ps : List Process) (k : Name)
    → member k (map (λ p. p.name) (keep_if keep ps)) ≡ true
    → member k (map (λ p. p.name) ps) ≡ true
unfolding member
kept_names keep [] k h = cc
kept_names keep (p ∷ ps) k h = ground (arith, kept_names keep ps k)

member-nil : (k : Name) → member k [] ≡ false
unfolding member
member-nil k = refl

count-nil : (k : Name) → count [] k ≡ 0
unfolding get
count-nil k = refl

has_some : {A : Type 0} (o : Option A) → is_some o ≡ true → (a : A) × (o ≡ some a)
has_some none h = cc
has_some (some a) h = (a, refl)

-- A task planner that the constructor returns is sound.
pub init-IsSound :
    (task : Task) (process_filter : Option (Process → Bool)) (t : TaskPlanner)
    → init task process_filter ≡ ok t
    → IsSound t
init-IsSound task f t e =
    let (names, ds, extracted, planned, attrs, no_failures, ephs) = init_inversion task f t e in
    let (procs, fin) = start_fields names ds t.planner planned in
    let named = (extract_dependencies-ok task f names ds extracted).0 in
    record {
      valid = init-IsValid names ds planned;
      attributed = λ k m. rw attrs (
          has_some (get (put_attributes [] (selected f task)) k) (
            ground
              (arith, put_attributes-has (selected f task) [] k, named k, member-to_set names k)));
      known_ephemerals = λ k m. ground (
        arith,
        named k,
        member-to_set names k,
        member-to_set (map (λ p. p.name) (keep_if (λ p. p.ephemeral) (selected f task))) k,
        kept_names (λ p. p.ephemeral) (selected f task) k,
      );
      daemons = λ k a h m. ground (arith, member-nil k);
      budget = λ k a h m n. ground (arith, count-nil k);
    }

-- A sound task planner is complete exactly when every process is finished, failed or ephemeral.
pub is_complete_iff :
    (t : TaskPlanner)
    → IsSound t
    → is_complete t
      ≡ all
          (λ k. member k t.planner.finished || member k t.planner.failed || member k t.ephemerals)
          t.planner.processes
unfolding is_complete set_eq is_subset
is_complete_iff t v = ground (arith, same_test, inside)
  where
    same_test :
        all
          (λ k. member k (union (union t.planner.finished t.planner.failed) t.ephemerals))
          t.planner.processes
        ≡ all
            (λ k. member k t.planner.finished || member k t.planner.failed || member k t.ephemerals)
            t.planner.processes
    same_test =
        ap (λ f. all f t.planner.processes)
          (fun_ext λ k. ground (
            arith,
            member-union (union t.planner.finished t.planner.failed) t.ephemerals k,
            member-union t.planner.finished t.planner.failed k,
          ))

    inside :
        is_subset
          (union (union t.planner.finished t.planner.failed) t.ephemerals)
          t.planner.processes
        ≡ true
    inside = member-is_subset _ _ λ k m. ground (
      arith,
      member-union (union t.planner.finished t.planner.failed) t.ephemerals k,
      member-union t.planner.finished t.planner.failed k,
      v.valid.known k,
      v.known_ephemerals k,
    )
