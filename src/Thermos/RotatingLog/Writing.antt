-- ===== src/Thermos/RotatingLog/Writing.antt =====
-- What a write to a rotating log keeps and what it bounds.
use aurora_client.Base.{
  Result-cases, append_assoc, append_nil, ap, sym, ◌∙◌, ℕ, zero, suc, ◌≤◌, ◌≡◌, ◌⊎◌, refl, false,
  none, some, List, [], ◌++◌, if◌then◌else◌, is_some, nat_beq, ltb, ok, arith, Option-cases,
  Bool-cases, inl, inr,
}
use aurora_client.Base.Int.{ℤ, pos, negsuc, pos_part, leb_ℤ}
use aurora_client.Thermos.RotatingLog.{
  Files, set, body, swap_files, shift, Handler, should_rollover, rollover, write,
}
use aurora_client.Thermos.RotatingLog.Shifting.{shifted, shift-shifted}

-- The bytes on the disk, from the oldest of n suffixes to the log itself.
unfoldable pub contents : ℕ → Files → List ℕ
contents zero files = body (files 0)
contents (suc n) files = body (files (suc n)) ++ contents n files

contents_cong : (n : ℕ) (f g : Files) → ((j : ℕ) → f j ≡ g j) → contents n f ≡ contents n g
unfolding contents
contents_cong zero f g h = ground (arith, h 0)
contents_cong (suc n) f g h = ground (arith, h (suc n), contents_cong n f g h)

contents_shifted :
    (n : ℕ) (f g : Files)
    → g 0 ≡ some []
    → ((j : ℕ) → j ≤ n → g (suc j) ≡ f j)
    → contents (suc n) g ≡ contents n f
unfolding contents
contents_shifted zero f g h k = ground (arith, h, k 0 (omega arith), append_nil (body (f 0)))
contents_shifted (suc n) f g h k =
    ground
      (arith, k (suc n) (omega arith), contents_shifted n f g h (λ j le. k j (omega (arith, le))))

-- The files after a rollover, with the suffixes up to n + 1.
abbrev pub after : ℕ → Files → Files
after n files = set (swap_files 0 1 (shift n files)) 0 (some [])

pub after_lem :
    (n : ℕ) (files : Files) (log : List ℕ)
    → files 0 ≡ some log
    → (j : ℕ)
    → after n files (suc j) ≡ (
        if nat_beq j 0
        then some log
        else if ltb n j
        then files (suc j)
        else if nat_beq n j
        then (if is_some (files n) then files n else files (suc n))
        else files j)
unfolding swap_files shifted
after_lem n files log open_ zero = ground (arith, shift-shifted n files 0, shift-shifted n files 1)
after_lem n files log open_ (suc j) =
    ground
      (arith, shift-shifted n files 0, shift-shifted n files 1, shift-shifted n files (suc (suc j)))

contents_append :
    (n : ℕ) (files : Files) (b : List ℕ)
    → contents n (set files 0 (some (body (files 0) ++ b))) ≡ contents n files ++ b
unfolding contents
contents_append zero files b = refl
contents_append (suc n) files b =
    ground
      (arith, contents_append n files b, append_assoc (body (files (suc n))) (contents n files) b)

-- What a rollover drops: the oldest file, or nothing.
abbrev Keeps : ℕ → Files → Type 0
Keeps n files =
    (dropped : List ℕ) × (contents (suc n) files ≡ dropped ++ contents (suc n) (after n files))
    × ((dropped ≡ []) ⊎ (dropped ≡ body (files (suc n))))

full-Keeps :
    (n : ℕ) (files : Files) (log content : List ℕ)
    → files 0 ≡ some log
    → files n ≡ some content
    → Keeps n files
unfolding contents
full-Keeps n files log content open_ there = (
  body (files (suc n)),
  ap (λ rest. body (files (suc n)) ++ rest)
      (sym (
        contents_shifted n files (after n files) refl
          (λ j le. ground (arith, le, there, open_, after_lem n files log open_ j)))),
  inr refl,
)

gap-Keeps :
    (n : ℕ) (files : Files) (log : List ℕ) → files 0 ≡ some log → files n ≡ none → Keeps n files
unfolding contents
gap-Keeps zero files log open_ missing = absurd (ground (arith, missing, open_))
gap-Keeps (suc n) files log open_ missing = (
  [],
  ground (
    arith,
    missing,
    after_lem (suc n) files log open_ (suc n),
    contents_shifted n files (after (suc n) files) refl
        (λ j le. ground (arith, le, open_, after_lem (suc n) files log open_ j)),
  ),
  inl refl,
)

rollover-Keeps : (n : ℕ) (files : Files) (log : List ℕ) → files 0 ≡ some log → Keeps n files
rollover-Keeps n files log open_ = elim (Option-cases (files n)) [
  | inr (content, there) ↦ full-Keeps n files log content open_ there
  | inl missing ↦ gap-Keeps n files log open_ missing
]

-- The number of suffixes.
abbrev pub suffixes : Handler → ℕ
suffixes h = pos_part h.max_backups

-- What one write keeps: all bytes but those of the oldest file, and the settings.
abbrev WriteKeeps : Handler → List ℕ → Handler → Type 0
WriteKeeps h b h' =
    (dropped : List ℕ) × (contents (suffixes h) h.files ++ b
      ≡ dropped ++ contents (suffixes h) h'.files)
    × ((dropped ≡ []) ⊎ (dropped ≡ body (h.files (suffixes h))))

rolled_keeps :
    (n : ℕ) (files : Files) (log b : List ℕ)
    → files 0 ≡ some log
    → (dropped : List ℕ) × (contents (suc n) files ++ b
        ≡ dropped ++ contents (suc n) (after n (set files 0 (some (body (files 0) ++ b)))))
      × ((dropped ≡ []) ⊎ (dropped ≡ body (files (suc n))))
rolled_keeps n files log b open_ =
    let written = set files 0 (some (body (files 0) ++ b)) in
    let (dropped, kept, oldest) = rollover-Keeps n written (body (files 0) ++ b) refl in
    (
      dropped,
      sym (contents_append (suc n) files b) ∙ kept,
      elim oldest [ inl nothing ↦ inl nothing | inr whole ↦ inr (ground (arith, whole)) ],
    )

above_zero : (m : ℤ) → leb_ℤ m (pos 0) ≡ false → (n : ℕ) × (m ≡ pos (suc n))
above_zero (pos zero) h = absurd (ground (arith, h))
above_zero (pos (suc n)) h = (n, refl)
above_zero (negsuc n) h = absurd (ground (arith, h))

-- The log with what is written, before it is rolled over.
abbrev pub appended : Files → List ℕ → Files
appended files b = set files 0 (some (body (files 0) ++ b))

pub write_cases :
    (h h' : Handler) (b : List ℕ)
    → write h b ≡ ok h'
    → (should_rollover (record h { files = appended h.files b }) ≡ false)
        × (h' ≡ record h { files = appended h.files b })
      ⊎ ((n : ℕ) × (h.max_backups ≡ pos (suc n))
          × (h' ≡ record h { files = after n (appended h.files b) }))
unfolding write rollover should_rollover
write_cases h h' b done =
    let written = record h { files = appended h.files b } in
    elim (Bool-cases h.closed) [
      | inl closed_ ↦ absurd (ground (arith, closed_, done))
      | inr open_ ↦ elim (Bool-cases (should_rollover written)) [
        | inl large ↦
            let (n, e) = above_zero h.max_backups (ground (arith, large)) in
            inr (n, e, ground (arith, open_, large, e, done))
        | inr small ↦ inl (small, ground (arith, open_, small, done))
      ]
    ]

done_keeps :
    (h h' : Handler) (b log : List ℕ) → h.files 0 ≡ some log → write h b ≡ ok h' → WriteKeeps h b h'
done_keeps h h' b log open_ done = elim (write_cases h h' b done) [
  | inl (_, same) ↦ ([], ground (arith, same, contents_append (suffixes h) h.files b), inl refl)
  | inr (n, e, rolled) ↦
      let (dropped, kept, oldest) = rolled_keeps n h.files log b open_ in
      (
        dropped,
        ground (arith, e, rolled, kept),
        elim oldest [ inl nothing ↦ inl nothing | inr whole ↦ inr (ground (arith, whole, e)) ],
      )
]

pub write_open :
    (h : Handler) (b : List ℕ) → h.closed ≡ false → (h' : Handler) × (write h b ≡ ok h')
unfolding write
write_open h b open_ = elim (Result-cases (write h b)) [
  | inl (h', done) ↦ (h', done)
  | inr (e, raised) ↦ absurd (ground (arith, open_, raised))
]

-- Let a rotating log be open. A write succeeds, and what was on the disk followed by what is written is
-- what is on the disk then, from the oldest suffix to the log itself, but for the file with the last
-- suffix, which is all that may be dropped.
pub write_keeps :
    (h : Handler) (b log : List ℕ)
    → h.closed ≡ false
    → h.files 0 ≡ some log
    → (h' : Handler) × (write h b ≡ ok h')
      × ((dropped : List ℕ) × (contents (suffixes h) h.files ++ b
            ≡ dropped ++ contents (suffixes h) h'.files)
          × ((dropped ≡ []) ⊎ (dropped ≡ body (h.files (suffixes h)))))
write_keeps h b log open_ there =
    let (h', done) = write_open h b open_ in (h', done, done_keeps h h' b log there done)
