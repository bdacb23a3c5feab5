-- ===== src/Thermos/RotatingLog/Bounds.antt =====
-- The bounds of a rotating log: the size of the log and the number of its suffixes.
use aurora_client.Base.{
  Result-cases, ◌∷◌, ◌>>=◌, ◌∙◌, ℕ, zero, suc, ◌<◌, ◌≡◌, refl, true, false, some, List, [], ◌++◌,
  length, Result, ok, arith, inl, inr,
}
use aurora_client.Base.Int.{ℤ, pos, pos_part, ltb_ℤ}
use aurora_client.Thermos.RotatingLog.{
  Files, set, init, body, Handler, should_rollover, write, LogError,
}
use aurora_client.Thermos.RotatingLog.Writing.{
  suffixes, appended, after, after_lem, write_cases, write_open,
}

-- The writes of a process, one after another.
unfoldable pub writes : Handler → List (List ℕ) → Result LogError Handler
writes h [] = ok h
writes h (b ∷ bs) = write h b >>= λ h'. writes h' bs

-- The log is below its size, and the files beyond the last suffix are as they were.
abbrev pub Bounded : Handler → Handler → Type 0
Bounded h h' =
    (ltb_ℤ (pos (length (body (h'.files 0)))) h.max_bytes ≡ true)
    × ((j : ℕ) → suffixes h < j → h'.files j ≡ h.files j)

after_far :
    (n : ℕ) (files : Files) (log : List ℕ)
    → files 0 ≡ some log
    → (j : ℕ) → suc n < j
    → after n files j ≡ files j
after_far n files log open_ zero far = absurd (omega (arith, far))
after_far n files log open_ (suc j) far = ground (arith, far, after_lem n files log open_ j)

write-Bounded :
    (h h' : Handler) (b : List ℕ)
    → ltb_ℤ (pos 0) h.max_bytes ≡ true
    → ltb_ℤ (pos 0) h.max_backups ≡ true
    → write h b ≡ ok h'
    → Bounded h h'
      × (h'.max_bytes ≡ h.max_bytes)
      × (h'.max_backups ≡ h.max_backups)
      × (h'.closed ≡ h.closed)
unfolding should_rollover
write-Bounded h h' b sized backed done = elim (write_cases h h' b done) [
  | inl (small, same) ↦ (
    (ground (arith, small, same), λ j beyond. ground (arith, same, beyond)),
    ground (arith, same),
    ground (arith, same),
    ground (arith, same),
  )
  | inr (n, e, rolled) ↦ (
    (
      ground (arith, rolled),
      λ j beyond. ground (
        arith,
        rolled,
        after_far n (appended h.files b) (body (h.files 0) ++ b) refl j (ground (arith, e, beyond)),
        beyond,
      ),
    ),
    ground (arith, rolled),
    ground (arith, rolled),
    ground (arith, rolled),
  )
]

writes_done :
    (h h' : Handler) (bs : List (List ℕ))
    → ltb_ℤ (pos 0) h.max_bytes ≡ true
    → ltb_ℤ (pos 0) h.max_backups ≡ true
    → ltb_ℤ (pos (length (body (h.files 0)))) h.max_bytes ≡ true
    → writes h bs ≡ ok h'
    → Bounded h h'
unfolding writes
writes_done h h' [] sized backed small done =
    (ground (arith, done), λ j beyond. ground (arith, done))
writes_done h h' (b ∷ bs) sized backed small done = elim (Result-cases (write h b)) [
  | inl (h1, first) ↦
      let ((small1, far1), bytes, backups, _) = write-Bounded h h1 b sized backed first in
      let (small2, far2) =
        writes_done h1 h' bs (ground (arith, bytes)) (ground (arith, backups))
          (ground (arith, bytes, small1)) (ground (arith, first, done)) in
      (
        ground (arith, small2, bytes),
        λ j beyond. far2 j (ground (arith, beyond, backups)) ∙ far1 j beyond,
      )
  | inr (e, raised) ↦ absurd (ground (arith, raised, done))
]

writes_open :
    (h : Handler) (bs : List (List ℕ)) → h.closed ≡ false → (h' : Handler) × (writes h bs ≡ ok h')
unfolding writes
writes_open h [] open_ = (h, refl)
writes_open h (b ∷ bs) open_ =
    let (h1, first) = write_open h b open_ in
    elim (write_cases h h1 b first) [
      | inl (_, same) ↦
          let (h', rest) = writes_open h1 bs (ground (arith, same, open_)) in
          (h', ground (arith, first, rest))
      | inr (_, _, rolled) ↦
          let (h', rest) = writes_open h1 bs (ground (arith, rolled, open_)) in
          (h', ground (arith, first, rest))
    ]

-- Whatever is written to a log that is just opened with a size and a number of backups, the log stays
-- below its size, and no file is made or changed beyond that number of suffixes.
pub writes_bounded :
    (files : Files) (max_bytes max_backups : ℤ) (bs : List (List ℕ))
    → ltb_ℤ (pos 0) max_bytes ≡ true
    → ltb_ℤ (pos 0) max_backups ≡ true
    → (h h' : Handler) × (init files max_bytes max_backups ≡ ok h)
      × (writes h bs ≡ ok h')
      × (ltb_ℤ (pos (length (body (h'.files 0)))) max_bytes ≡ true)
      × ((j : ℕ) → pos_part max_backups < j → h'.files j ≡ files j)
unfolding init
writes_bounded files max_bytes max_backups bs sized backed =
    let h : Handler = record {
      max_bytes = max_bytes;
      max_backups = max_backups;
      files = set files 0 (some []);
      closed = false;
    } in
    let (h', done) = writes_open h bs refl in
    let (small, far) = writes_done h h' bs sized backed (ground (arith, sized)) done in
    (h, h', ground (arith, backed), done, small, λ j beyond. far j beyond ∙ ground (arith, beyond))
