-- ===== src/Thermos/Helper/Settling.antt =====
-- The records that `kill` writes for the processes of a task settle them, one after another.
use aurora_client.Base.{
  ◌≡◌, refl, subst, true, false, Option, none, some, List, [], ◌∷◌, arith, Option-cases, Bool-cases,
  ok, inl, inr, ◌==◌, ==_iff, ◌⊎◌,
}
use aurora_client.Base.Int.{ℤ, pos, ◌+ℤ◌, beq_ℤ_iff}
use aurora_client.Thermos.Planner.{Name}
use aurora_client.Base.Dicts.{Dict, get, put, get-put, IsDict}
use aurora_client.Thermos.Ckpt.{
  ProcessStatus, RunnerHeader, RunnerCkpt, RunnerState, Runs, key_eq, seq_order, run_machine,
  run_process_dispatch, dispatch, dispatch_process, rebuild, no_handlers,
}
use aurora_client.Thermos.Helper.{Platform, kill_statuses, process_record}
use aurora_client.Thermos.Helper.Consistent.{is_consistent}
use aurora_client.Thermos.Helper.Killing.{Applies, settle, is_settled, kill_status_lem}

pub settled_runs : Runs → ProcessStatus → Runs
settled_runs runs u = record runs { current = settle runs.current (some u) }

-- A status that applies is dispatched.
dispatch_status :
    (t : RunnerState) (key : Option Name) (runs : Runs) (u : ProcessStatus)
    → get t.processes key ≡ some runs
    → Applies key runs.current (some u)
    → dispatch no_handlers t (process_record u) false false
      ≡ (record t { processes = put t.processes key (settled_runs runs u) }, [], none)
unfolding dispatch dispatch_process run_machine run_process_dispatch seq_order Applies settle
    settled_runs
dispatch_status t key runs u found (same, other, stated, applied, (seq, numbered, next)) =
    ground (arith, beq_ℤ_iff (seq +ℤ pos 1) (seq +ℤ pos 1))

-- The runs of the entries are those of the state, and can be read.
unfoldable pub Covers : RunnerState → Dict (Option Name) Runs → Type 0
Covers t entries =
    (key : Option Name) (r : Runs)
    → get entries key ≡ some r
    → (get t.processes key ≡ some r) × (is_consistent key r.current ≡ true)

-- All runs of the entries are settled, and the other processes are as they were.
unfoldable pub Settled : RunnerState → RunnerState → Dict (Option Name) Runs → Type 0
Settled t t' entries =
    (t'.statuses ≡ t.statuses)
    × ((key : Option Name) (r : Runs)
        → get t'.processes key ≡ some r
        → ((get entries key ≡ none) × (get t.processes key ≡ some r))
          ⊎ (is_settled r.current ≡ true))

Covers-rest :
    (t : RunnerState) (key : Option Name) (runs r : Runs) (entries : Dict (Option Name) Runs)
    → IsDict ((key, runs) ∷ entries)
    → Covers t ((key, runs) ∷ entries)
    → Covers (record t { processes = put t.processes key r }) entries
unfolding Covers IsDict get
Covers-rest t key runs r entries (new, rest) covers j r' found = elim (Bool-cases (key == j)) [
  | inl same ↦ absurd (ground (arith, ==_iff key j))
  | inr other ↦
      let (there, fine) = covers j r' (ground arith) in
      (ground (arith, get-put t.processes key r j), fine)
]

Covers-same :
    (t : RunnerState) (key : Option Name) (runs : Runs) (entries : Dict (Option Name) Runs)
    → IsDict ((key, runs) ∷ entries)
    → Covers t ((key, runs) ∷ entries)
    → Covers t entries
unfolding Covers IsDict get
Covers-same t key runs entries (new, rest) covers j r' found = elim (Bool-cases (key == j)) [
  | inl same ↦ absurd (ground (arith, ==_iff key j))
  | inr other ↦ covers j r' (ground arith)
]

settled_step :
    (t t' : RunnerState) (key : Option Name) (runs r : Runs) (entries : Dict (Option Name) Runs)
    → is_settled r.current ≡ true
    → Settled (record t { processes = put t.processes key r }) t' entries
    → Settled t t' ((key, runs) ∷ entries)
unfolding Settled get
settled_step t t' key runs r entries done (same, rest) = (
  same,
  λ j r' found. elim (rest j r' found) [
    | inr settled ↦ inr settled
    | inl (absent, there) ↦ elim (Bool-cases (key == j)) [
      | inl here ↦ inr (ground (arith, get-put t.processes key r j))
      | inr other ↦ inl (ground arith, ground (arith, get-put t.processes key r j))
    ]
  ],
)

settled_same :
    (t t' : RunnerState) (key : Option Name) (runs : Runs) (entries : Dict (Option Name) Runs)
    → get t.processes key ≡ some runs
    → is_settled runs.current ≡ true
    → Settled t t' entries
    → Settled t t' ((key, runs) ∷ entries)
unfolding Settled get
settled_same t t' key runs entries known done (same, rest) = (
  same,
  λ j r' found. elim (rest j r' found) [
    | inr settled ↦ inr settled
    | inl (absent, there) ↦ elim (Bool-cases (key == j)) [
      | inl here ↦ inr (ground (arith, ==_iff key j))
      | inr other ↦ inl (ground arith, there)
    ]
  ],
)

module _ (platform : Platform) (header : RunnerHeader) (now : ℤ) where
  pub loop :
      (t : RunnerState) (entries : Dict (Option Name) Runs)
      → IsDict entries
      → Covers t entries
      → (records : List RunnerCkpt) × (kill_statuses platform header now entries ≡ ok records)
        × (t' : RunnerState) × (rebuild t records false false ≡ (t', none))
        × Settled t t' entries
  unfolding kill_statuses rebuild
  loop t [] d covers = (
    [],
    refl,
    t,
    refl,
    (unfold Settled in (refl, λ key r found. inl (unfold get in refl, found))),
  )
  loop t ((key, runs) ∷ entries) d covers =
      let both : (get t.processes key ≡ some runs) × (is_consistent key runs.current ≡ true) =
        unfold Covers get in covers key runs (ground (arith, ==_iff key key)) in
      let (status, e, applies, done) =
        kill_status_lem platform header now key runs.current both.1 in
      let rest : IsDict entries = (unfold IsDict in d.1) in
      elim (Option-cases status) [
        | inl nothing ↦
            let (records, written, t', read, settled) =
              loop t entries rest (Covers-same t key runs entries d covers) in
            (
              records,
              ground (arith, e, nothing, written),
              t',
              read,
              settled_same t t' key runs entries both.0
                  (unfold settle in ground (arith, nothing, done)) settled,
            )
        | inr (u, something) ↦
            let r = settled_runs runs u in
            let (records, written, t', read, settled) =
              loop (record t { processes = put t.processes key r }) entries rest
                (Covers-rest t key runs r entries d covers) in
            (
              process_record u ∷ records,
              ground (arith, e, something, written),
              t',
              ground (
                arith,
                read,
                dispatch_status t key runs u both.0
                    (subst (Applies key runs.current) something applies),
              ),
              settled_step t t' key runs r entries
                  (unfold settled_runs in
                    subst (λ st. is_settled (settle runs.current st) ≡ true) something done)
                  settled,
            )
      ]
