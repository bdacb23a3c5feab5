-- ===== src/Thermos/Planner/Progress.antt =====
-- A valid planner never gets stuck without a failure.
use aurora_client.Base.{
  ℕ, zero, suc, ◌<◌, ◌≡◌, ◌⊎◌, inl, inr, true, false, arith, string_eq, Bool-cases, is_nil,
}
use aurora_client.Base.Sets.{
  member, union, is_subset, set_eq, not_is_subset, member-is_subset, member-union,
}
use aurora_client.Thermos.Planner.{Name, Planner, runnable, is_complete}
use aurora_client.Thermos.Planner.Runnable.{deps_of, member-runnable}
use aurora_client.Thermos.Planner.Schedule.{IsRanked, satisfiable-IsRanked, nil_of_is_nil}
use aurora_client.Thermos.Planner.Invariant.{IsValid}

-- The process failed, or waits for one that is blocked.
pub data Blocked (p : Planner) : Name → Type 0 where
  by_failure : (k : Name) → member k p.failed ≡ true → Blocked p k
  by_dependency :
      (k d : Name) → member d (deps_of p.dependencies k) ≡ true → Blocked p d → Blocked p k

module _ (p : Planner) (v : IsValid p) (idle : is_nil p.running ≡ true)
    (stuck : is_nil (runnable p) ≡ true) where
  waits :
      (k : Name)
      → member k p.processes ≡ true
      → member k p.finished ≡ false
      → member k p.failed ≡ false
      → is_subset (deps_of p.dependencies k) p.finished ≡ false
  waits k m f g = ground (
    arith,
    member-runnable p k,
    nil_of_is_nil (runnable p) k stuck,
    nil_of_is_nil p.running k idle,
  )

  descend :
      (rank : Name → ℕ)
      → IsRanked rank p.processes p.dependencies
      → (n : ℕ) (k : Name) → rank k < n
      → member k p.processes ≡ true
      → member k p.finished ≡ false
      → Blocked p k
  descend rank r zero k low m f = absurd (omega arith)
  descend rank r (suc n) k low m f = elim (Bool-cases (member k p.failed)) [
    | inl g ↦ by_failure k g
    | inr g ↦
        let (d, needed, undone) =
          not_is_subset (deps_of p.dependencies k) p.finished (waits k m f g) in
        let lt : rank d < rank k = r.lower k d m needed in
        by_dependency k d needed (descend rank r n d (omega arith) (r.known k d m needed) undone)
  ]

-- When nothing runs and nothing is runnable in a valid planner, every process has finished or is
-- blocked: it failed, or a chain of dependencies leads from it to a process that failed.
pub stuck-Blocked :
    (p : Planner)
    → IsValid p
    → is_nil p.running ≡ true
    → is_nil (runnable p) ≡ true
    → (k : Name) → member k p.processes ≡ true
    → (member k p.finished ≡ true) ⊎ Blocked p k
stuck-Blocked p v idle stuck k m = elim (Bool-cases (member k p.finished)) [
  | inl f ↦ inl f
  | inr f ↦
      let (rank, r) = satisfiable-IsRanked p.processes p.dependencies v.planned in
      inr (descend p v idle stuck rank r (suc (rank k)) k (omega arith) m f)
]

no_Blocked : (p : Planner) (k : Name) → is_nil p.failed ≡ true → ¬ Blocked p k
no_Blocked p k none_failed (by_failure _ f) = cc (nil_of_is_nil p.failed k none_failed)
no_Blocked p k none_failed (by_dependency _ d _ b) = no_Blocked p d none_failed b

-- So a valid planner in which nothing has failed, nothing runs and nothing is runnable is complete.
pub stuck-is_complete :
    (p : Planner)
    → IsValid p
    → is_nil p.failed ≡ true
    → is_nil p.running ≡ true
    → is_nil (runnable p) ≡ true
    → is_complete p ≡ true
unfolding is_complete set_eq
stuck-is_complete p v none_failed idle stuck = ground (arith, down, up)
  where
    down : is_subset (union p.finished p.failed) p.processes ≡ true
    down =
        member-is_subset (union p.finished p.failed) p.processes
          λ k m. ground (arith, member-union p.finished p.failed k, v.known k)

    done : (k : Name) → member k p.processes ≡ true → member k p.finished ≡ true
    done k m = elim (stuck-Blocked p v idle stuck k m) [
      | inl f ↦ f
      | inr b ↦ absurd (no_Blocked p k none_failed b)
    ]

    up : is_subset p.processes (union p.finished p.failed) ≡ true
    up =
        member-is_subset p.processes (union p.finished p.failed)
          λ k m. ground (arith, member-union p.finished p.failed k, done k m)
