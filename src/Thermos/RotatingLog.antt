-- ===== src/Thermos/RotatingLog.antt =====
-- src/main/python/apache/thermos/core/process.py: `RotatingFileHandler`, the log of a process that is
-- renamed once it is large. File 0 is the log itself, file i the one with the suffix i; what an open
-- file holds is a list of bytes. Of the errors of the file system only a missing file is modelled.
pub mod Shifting
pub mod Writing
pub mod Bounds
mod Samples
use aurora_client.Base.{
  ℕ, zero, suc, ◌-◌, Bool, true, false, not, ◌&&◌, ◌||◌, Option, none, some, List, [], ◌++◌,
  if◌then◌else◌, is_some, nat_beq, length, Result, ok, err,
}
use aurora_client.Base.Int.{ℤ, pos, pos_part, ltb_ℤ, leb_ℤ}

-- What is on the disk under the name of the log and its suffixes.
abbrev pub Files : Type 0
Files = ℕ → Option (List ℕ)

abbrev pub set : Files → ℕ → Option (List ℕ) → Files
set files i content j = if nat_beq i j then content else files j

abbrev pub body : Option (List ℕ) → List ℕ
body none = []
body (some bytes) = bytes

pub data LogError : Type 0 where
  value_error : LogError

pub record Handler : Type 0 where
  pub max_bytes : ℤ
  pub max_backups : ℤ
  pub files : Files
  pub closed : Bool

-- The constructor, in its mode 'wb': the log is opened empty.
unfoldable pub init : Files → ℤ → ℤ → Result LogError Handler
init files max_bytes max_backups =
    if ltb_ℤ (pos 0) max_bytes && leb_ℤ max_backups (pos 0)
    then err value_error
    else ok (record {
      max_bytes = max_bytes;
      max_backups = max_backups;
      files = set files 0 (some []);
      closed = false;
    })

unfoldable pub close : Handler → Handler
close h = record h { closed = true }

unfoldable pub swap_files : ℕ → ℕ → Files → Files
swap_files src tgt files =
    let deleted = if is_some (files tgt) then set files tgt none else files in
    elim (deleted src) [
      | none ↦ deleted
      | some content ↦ set (set deleted src none) tgt (some content)
    ]

unfoldable pub should_rollover : Handler → Bool
should_rollover h =
    if leb_ℤ h.max_bytes (pos 0) || leb_ℤ h.max_backups (pos 0)
    then false
    else leb_ℤ h.max_bytes (pos (length (body (h.files 0))))

-- The loop of `rollover`, from an index down to 1.
unfoldable pub shift : ℕ → Files → Files
shift zero files = files
shift (suc n) files =
    shift n (if is_some (files (suc n)) then swap_files (suc n) (suc (suc n)) files else files)

unfoldable pub rollover : Handler → Handler
rollover h = record h {
  files = set (swap_files 0 1 (shift (pos_part h.max_backups - 1) h.files)) 0 (some []);
}

-- A write to a closed file raises ValueError.
unfoldable pub write : Handler → List ℕ → Result LogError Handler
write h b =
    let written = record h { files = set h.files 0 (some (body (h.files 0) ++ b)) } in
    if h.closed
    then err value_error
    else ok (if should_rollover written then rollover written else written)
