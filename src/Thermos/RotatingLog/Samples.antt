-- ===== src/Thermos/RotatingLog/Samples.antt =====
-- A log of four bytes with two backups.
use aurora_client.Base.{
  ℕ, ◌<◌, ◌≡◌, ◌⊎◌, refl, true, false, none, some, List, [], ◌∷◌, ◌++◌, length, ok, if◌then◌else◌,
  nat_beq,
}
use aurora_client.Base.Int.{pos, ltb_ℤ}
use aurora_client.Thermos.RotatingLog.{
  Files, body, Handler, init, set, swap_files, shift, should_rollover, rollover, write,
}
use aurora_client.Thermos.RotatingLog.Writing.{contents, write_keeps}
use aurora_client.Thermos.RotatingLog.Bounds.{writes, writes_bounded}

abbrev disk : Files
disk n =
    if nat_beq n 0
    then some (7 ∷ 8 ∷ 9 ∷ [])
    else if nat_beq n 1
    then some (4 ∷ 5 ∷ [])
    else if nat_beq n 2
    then some (1 ∷ [])
    else none

abbrev log : Handler
log = record { max_bytes = pos 4; max_backups = pos 2; files = disk; closed = false }

-- The fourth byte makes the log roll over.
rolls :
    (write log (10 ∷ []))
    ≡ ok (rollover (record log { files = set disk 0 (some (7 ∷ 8 ∷ 9 ∷ 10 ∷ [])) }))
unfolding write should_rollover
rolls = refl

kept :
    contents 2 (rollover (record log { files = set disk 0 (some (7 ∷ 8 ∷ 9 ∷ 10 ∷ [])) })).files
    ≡ 4 ∷ 5 ∷ 7 ∷ 8 ∷ 9 ∷ 10 ∷ []
unfolding contents rollover shift swap_files
kept = refl

write_keeps_example :
    (h' : Handler) × (write log (10 ∷ []) ≡ ok h')
    × ((dropped : List ℕ) × (contents 2 disk ++ 10 ∷ [] ≡ dropped ++ contents 2 h'.files)
        × ((dropped ≡ []) ⊎ (dropped ≡ 1 ∷ [])))
write_keeps_example = write_keeps log (10 ∷ []) (7 ∷ 8 ∷ 9 ∷ []) refl refl

writes_bounded_example :
    (h h' : Handler) × (init disk (pos 4) (pos 2) ≡ ok h)
    × (writes h ((1 ∷ 2 ∷ []) ∷ (3 ∷ 4 ∷ 5 ∷ []) ∷ []) ≡ ok h')
    × (ltb_ℤ (pos (length (body (h'.files 0)))) (pos 4) ≡ true)
    × ((j : ℕ) → 2 < j → h'.files j ≡ disk j)
writes_bounded_example =
    writes_bounded disk (pos 4) (pos 2) ((1 ∷ 2 ∷ []) ∷ (3 ∷ 4 ∷ 5 ∷ []) ∷ []) refl refl
