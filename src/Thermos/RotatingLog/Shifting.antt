-- ===== src/Thermos/RotatingLog/Shifting.antt =====
-- Where each file is after a rollover.
use aurora_client.Base.{ℕ, zero, suc, ◌≡◌, refl, none, if◌then◌else◌, is_some, nat_beq, ltb, arith}
use aurora_client.Thermos.RotatingLog.{Files, swap_files, shift}

-- The files that a loop from n down to 1 leaves.
unfoldable pub shifted : ℕ → Files → Files
shifted n files zero = files 0
shifted n files (suc zero) = if nat_beq n 0 then files 1 else none
shifted n files (suc (suc j)) =
    if ltb n (suc j)
    then files (suc (suc j))
    else if nat_beq n (suc j)
    then (if is_some (files n) then files n else files (suc n))
    else files (suc j)

moved : ℕ → Files → Files
moved n files = if is_some (files n) then swap_files n (suc n) files else files

moved_lem :
    (n : ℕ) (files : Files) (j : ℕ)
    → moved (suc n) files j ≡ (
        if is_some (files (suc n))
        then (if nat_beq j (suc (suc n))
            then files (suc n)
            else if nat_beq j (suc n)
            then none
            else files j)
        else files j)
unfolding moved swap_files
moved_lem n files j = ground arith

pub shift-shifted : (n : ℕ) (files : Files) (j : ℕ) → shift n files j ≡ shifted n files j
unfolding shift shifted moved
shift-shifted zero files zero = refl
shift-shifted zero files (suc zero) = refl
shift-shifted zero files (suc (suc j)) = ground arith
shift-shifted (suc n) files zero =
    ground (arith, shift-shifted n (moved (suc n) files) 0, moved_lem n files 0)
shift-shifted (suc n) files (suc zero) =
    ground (arith, shift-shifted n (moved (suc n) files) 1, moved_lem n files 1)
shift-shifted (suc n) files (suc (suc j)) = ground (
  arith,
  shift-shifted n (moved (suc n) files) (suc (suc j)),
  moved_lem n files (suc (suc j)),
  moved_lem n files (suc j),
  moved_lem n files n,
  moved_lem n files (suc n),
)
