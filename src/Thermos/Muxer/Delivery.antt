-- ===== src/Thermos/Muxer/Delivery.antt =====
-- src/main/python/apache/thermos/core/muxer.py: `select` on all processes, over time.
use aurora_client.Base.{
  ℕ, zero, suc, String, ◌≡◌, refl, subst, Bool, true, false, none, some, List, [], ◌∷◌, ◌++◌, arith,
  keep_if, drop, all, All, map, Result, ok, ◌>>=◌, Result-cases, inl, inr, ◌==◌, ==_iff, string_eq,
  Bool-cases, Option-cases,
}
use aurora_client.Base.Int.{ℤ, negsuc}
use aurora_client.Base.Dicts.{get, IsDict}
use aurora_client.Thermos.Muxer.{
  Update, Disk, MuxerError, Muxer, Handle, bind, read, records_of, bind_processes, read_all, select,
}
use aurora_client.Thermos.Muxer.Forward.{is_increasing, is_new}
use aurora_client.Thermos.Muxer.Stream.{poll, follow, appears, concat, follow_file, follow_missing}

module _ {R : Type 0} where
  unfoldable pub is_of : String → Update R → Bool
  is_of name u = u.process == name

  -- Each checkpoint holds records of its process only.
  unfoldable pub Own : Disk R → Type 0
  Own disk = (name : String) → all (is_of name) (records_of (disk name)) ≡ true

  keep_append :
      (p : Update R → Bool) (us vs : List (Update R))
      → keep_if p (us ++ vs) ≡ keep_if p us ++ keep_if p vs
  keep_append p [] vs = refl
  keep_append p (u ∷ us) vs = ground (arith, keep_append p us vs)

  all-drop :
      (p : Update R → Bool) (n : ℕ) (us : List (Update R))
      → all p us ≡ true
      → all p (drop n us) ≡ true
  unfolding drop
  all-drop p zero us h = h
  all-drop p (suc n) [] h = refl
  all-drop p (suc n) (u ∷ us) h = all-drop p n us (ground arith)

  keep_own :
      (name : String) (us : List (Update R))
      → all (is_of name) us ≡ true
      → keep_if (is_of name) us ≡ us
  keep_own name [] h = refl
  keep_own name (u ∷ us) h = ground (arith, keep_own name us)

  keep_other :
      (name other : String) (us : List (Update R))
      → all (is_of other) us ≡ true
      → (other == name) ≡ false
      → keep_if (is_of name) us ≡ []
  unfolding is_of
  keep_other name other [] h k = refl
  keep_other name other (u ∷ us) h k = ground (
    arith,
    ==_iff u.process other,
    ==_iff u.process name,
    ==_iff other name,
    keep_other name other us,
  )

  append_nil : (us : List (Update R)) → us ++ [] ≡ us
  append_nil [] = refl
  append_nil (u ∷ us) = ground (arith, append_nil us)

  Own-polled :
      (disk : Disk R) (name : String) (handle handle' : Handle) (us : List (Update R))
      → Own disk
      → poll (disk name) handle ≡ ok (handle', us)
      → all (is_of name) us ≡ true
  unfolding poll read Own
  Own-polled disk name handle handle' us own h = elim (Result-cases (bind (disk name) handle)) [
    | inl (bound, e) ↦ elim (Option-cases bound.fp) [
      | inl closed ↦ ground (arith, e, closed)
      | inr (position, at) ↦
          ground (arith, e, at, own name, all-drop (is_of name) position (records_of (disk name)))
    ]
    | inr (error, e) ↦ absurd (ground (arith, e))
  ]

  select-cons :
      (disk : Disk R) (name : String) (handle : Handle) (m : Muxer)
      → select disk ((name, handle) ∷ m) ≡ (
          poll (disk name) handle >>= λ polled.
          select disk m >>= λ rest. ok ((name, polled.0) ∷ rest.0, polled.1 ++ rest.1))
  unfolding select poll bind_processes read_all
  select-cons disk name handle m = elim (Result-cases (bind (disk name) handle)) [
    | inl (bound, e) ↦ elim (Result-cases (bind_processes disk m)) [
      | inl (rest, e') ↦ ground (arith, e, e')
      | inr (error, e') ↦ ground (arith, e, e')
    ]
    | inr (error, e) ↦ ground (arith, e)
  ]

  -- Of a process that is not registered nothing is delivered.
  select_absent :
      (disk : Disk R) (m m' : Muxer) (us : List (Update R)) (name : String)
      → Own disk
      → get m name ≡ none
      → select disk m ≡ ok (m', us)
      → (keep_if (is_of name) us ≡ []) × (get m' name ≡ none)
  unfolding get
  select_absent disk [] m' us name own h got =
      unfold select bind_processes read_all in (ground arith, ground arith)
  select_absent disk ((other, handle) ∷ m) m' us name own h got =
      elim (Result-cases (poll (disk other) handle)) [
        | inr (error, e) ↦ absurd (ground (arith, select-cons disk other handle m, e))
        | inl ((handle', mine), e) ↦ elim (Result-cases (select disk m)) [
          | inr (error, e') ↦ absurd (ground (arith, select-cons disk other handle m, e, e'))
          | inl ((m1, more), e') ↦
              let (nothing, absent) = select_absent disk m m1 more name own (ground arith) e' in
              let own' = Own-polled disk other handle handle' mine own e in
              (
                ground (
                  arith,
                  select-cons disk other handle m,
                  e,
                  e',
                  nothing,
                  keep_append (is_of name) mine more,
                  keep_other name other mine own',
                ),
                ground (arith, select-cons disk other handle m, e, e', absent),
              )
        ]
      ]

  -- One `select` polls each process once.
  select_polls :
      (disk : Disk R) (m m' : Muxer) (us : List (Update R)) (name : String) (handle : Handle)
      → Own disk
      → IsDict m
      → get m name ≡ some handle
      → select disk m ≡ ok (m', us)
      → (handle' : Handle) × (poll (disk name) handle ≡ ok (handle', keep_if (is_of name) us))
        × (get m' name ≡ some handle')
  unfolding get IsDict
  select_polls disk [] m' us name handle own d h got = absurd (ground arith)
  select_polls disk ((other, known) ∷ m) m' us name handle own (new, d) h got =
      elim (Result-cases (poll (disk other) known)) [
        | inr (error, e) ↦ absurd (ground (arith, select-cons disk other known m, e))
        | inl ((handle', mine), e) ↦ elim (Result-cases (select disk m)) [
          | inr (error, e') ↦ absurd (ground (arith, select-cons disk other known m, e, e'))
          | inl ((m1, more), e') ↦
              let own' = Own-polled disk other known handle' mine own e in
              let joined = keep_append (is_of name) mine more in
              elim (Bool-cases (other == name)) [
                | inl same ↦ (
                  handle',
                  ground (
                    arith,
                    select-cons disk other known m,
                    e,
                    e',
                    joined,
                    keep_own other mine own',
                    append_nil mine,
                    ==_iff other name,
                    (select_absent disk m m1 more name own (ground (arith, ==_iff other name))
                        e').0,
                  ),
                  ground (arith, select-cons disk other known m, e, e'),
                )
                | inr apart ↦
                    let (handle'', polled, there) =
                      select_polls disk m m1 more name handle own d (ground arith) e' in
                    (
                      handle'',
                      ground (
                        arith,
                        select-cons disk other known m,
                        e,
                        e',
                        polled,
                        joined,
                        keep_other name other mine own' apart,
                      ),
                      ground (arith, select-cons disk other known m, e, e', there),
                    )
              ]
        ]
      ]

  select-IsDict :
      (disk : Disk R) (m m' : Muxer) (us : List (Update R))
      → Own disk
      → IsDict m
      → select disk m ≡ ok (m', us)
      → IsDict m'
  unfolding IsDict
  select-IsDict disk [] m' us own d got =
      let none_yet : Muxer = [] in
      let same : none_yet ≡ m' = (unfold select bind_processes read_all in ground arith) in
      subst IsDict same d
  select-IsDict disk ((other, known) ∷ m) m' us own d got =
      elim (Result-cases (poll (disk other) known)) [
        | inr (error, e) ↦ absurd (ground (arith, select-cons disk other known m, e))
        | inl ((handle', mine), e) ↦ elim (Result-cases (select disk m)) [
          | inr (error, e') ↦ absurd (ground (arith, select-cons disk other known m, e, e'))
          | inl ((m1, more), e') ↦
              let both : (get m other ≡ none) × IsDict m = d in
              let m2 : Muxer = (other, handle') ∷ m1 in
              let same : m2 ≡ m' = ground (arith, select-cons disk other known m, e, e') in
              let fine : IsDict m2 = (
                (select_absent disk m m1 more other own both.0 e').1,
                select-IsDict disk m m1 more own both.1 e',
              ) in
              subst IsDict same fine
        ]
      ]

  -- A sequence of `select` calls.
  unfoldable pub selects : Muxer → List (Disk R) → Result MuxerError (List (Update R))
  selects m [] = ok []
  selects m (disk ∷ disks) =
      select disk m >>= λ selected. selects selected.0 disks >>= λ rest. ok (selected.1 ++ rest)

  selects-follow :
      (disks : List (Disk R)) (m : Muxer) (us : List (Update R)) (name : String) (handle : Handle)
      → All Own disks
      → IsDict m
      → get m name ≡ some handle
      → selects m disks ≡ ok us
      → follow handle (map (λ disk. disk name) disks) ≡ ok (keep_if (is_of name) us)
  unfolding selects follow
  selects-follow [] m us name handle own d h got = ground arith
  selects-follow (disk ∷ disks) m us name handle (own, owns) d h got =
      elim (Result-cases (select disk m)) [
        | inr (error, e) ↦ absurd (ground (arith, e))
        | inl ((m', now), e) ↦ elim (Result-cases (selects m' disks)) [
          | inr (error, e') ↦ absurd (ground (arith, e, e'))
          | inl (later, e') ↦
              let (handle', polled, there) = select_polls disk m m' now name handle own d h e in
              ground (
                arith,
                e,
                e',
                polled,
                keep_append (is_of name) now later,
                selects-follow disks m' later name handle' owns
                    (select-IsDict disk m m' now own d e) there e',
              )
        ]
      ]

-- Let a process be registered with a watermark among others, let each checkpoint hold only records of
-- its process, and let the checkpoint of this one appear after some calls of `select`, with growing
-- sequence numbers, and then only grow, by records above the watermark. When none of the calls
-- raises, they deliver of this process exactly the records of its checkpoint above the watermark,
-- each once and in order.
pub selects_deliver :
    {R : Type 0} (disks : List (Disk R)) (m : Muxer) (us : List (Update R)) (name : String)
    (watermark : ℤ) (n : ℕ) (part : List (Update R)) (parts : List (List (Update R)))
    → All Own disks
    → IsDict m
    → get m name ≡ some (record { fp = none; watermark = watermark })
    → map (λ disk. disk name) disks ≡ appears n (part ∷ parts)
    → is_increasing (negsuc 0) part ≡ true
    → all (is_new watermark) (concat parts) ≡ true
    → selects m disks ≡ ok us
    → keep_if (is_of name) us ≡ keep_if (is_new watermark) (part ++ concat parts)
selects_deliver disks m us name watermark n part parts own d h seen grows later got =
    let handle : Handle = record { fp = none; watermark = watermark } in
    ground (
      arith,
      seen,
      selects-follow disks m us name handle own d h got,
      follow_missing n (part ∷ parts) watermark,
      follow_file part parts watermark grows later,
    )
