-- ===== src/Thermos/Muxer.antt =====
-- src/main/python/apache/thermos/core/muxer.py: `ProcessMuxer`, which reads the checkpoints of the
-- coordinators of all processes. A checkpoint is the list of the records that can be read of it, and an
-- open file is the number of records before its position.
pub mod Forward
pub mod Stream
pub mod Delivery
mod Samples
use aurora_client.Base.{
  ℕ, zero, suc, ◌+◌, String, Bool, true, false, not, ◌&&◌, ◌||◌, Option, none, some, List, [], ◌∷◌,
  ◌++◌, if◌then◌else◌, is_nil, length, drop, leb, ltb, ◌==◌, string_eq, Result, ok, err, ◌>>=◌, map,
}
use aurora_client.Base.Int.{ℤ, pos, negsuc, ltb_ℤ}
use aurora_client.Base.Dicts.{Dict, get, put, remove, has, get_default}

pub data MuxerError : Type 0 where
  process_exists process_not_found assertion_error attribute_error : MuxerError

-- `process_status` of a record; `R` is the rest of it.
pub record Update (R : Type 0) : Type 0 where
  pub process : String
  pub seq : ℤ
  pub rest : R

-- What opening a checkpoint comes to; `broken` is any failure but ENOENT.
pub data Opened (R : Type 0) : Type 0 where
  file : List (Update R) → Opened R
  missing broken : Opened R

abbrev pub Disk : Type 0 → Type 0
Disk R = String → Opened R

-- A registered process, with the position of its file, if it is open, and its watermark.
pub record Handle : Type 0 where
  pub fp : Option ℕ
  pub watermark : ℤ

abbrev pub Muxer : Type 0
Muxer = Dict String Handle

unfoldable pub register : Muxer → String → ℤ → Result MuxerError Muxer
register m process_name watermark =
    if has m process_name
    then err process_exists
    else ok (put m process_name (record { fp = none; watermark = watermark }))

unfoldable pub unregister : Muxer → String → Result MuxerError Muxer
unregister m process_name =
    if has m process_name then ok (remove m process_name) else err process_not_found

module _ {R : Type 0} where
  -- The loop of `_fast_forward_stream`: how many records it goes over.
  unfoldable pub fast_forward : ℤ → ℤ → List (Update R) → ℕ
  fast_forward watermark current [] = 0
  fast_forward watermark current (record_ ∷ records) =
      let more = fast_forward watermark record_.seq records in
      if ltb_ℤ current watermark then (if ltb_ℤ watermark record_.seq then 0 else suc more) else 0

  -- `_bind_processes` for one process: after a failure to open, `_fast_forward_stream` asserts.
  unfoldable pub bind : Opened R → Handle → Result MuxerError Handle
  bind opened handle = elim handle.fp [
    | some position ↦ ok handle
    | none ↦ elim opened [
      | file records ↦
          ok (record handle { fp = some (fast_forward handle.watermark (negsuc 0) records) })
      | missing ↦ ok handle
      | broken ↦ err assertion_error
    ]
  ]

  unfoldable pub bind_processes : Disk R → Muxer → Result MuxerError Muxer
  bind_processes disk [] = ok []
  bind_processes disk ((name, handle) ∷ m) = bind (disk name) handle >>= λ bound.
      bind_processes disk m >>= λ rest. ok ((name, bound) ∷ rest)

  abbrev pub records_of : Opened R → List (Update R)
  records_of (file records) = records
  records_of _ = []

  -- What `select` reads of one file, and where it is then: a file that is shorter than the position has
  -- been truncated, and is left.
  unfoldable pub read : Opened R → Handle → Handle × List (Update R)
  read opened handle = elim handle.fp [
    | none ↦ (handle, [])
    | some position ↦
        if ltb position (length (records_of opened))
        then (
          record handle { fp = some (length (records_of opened)) },
          drop position (records_of opened),
        )
        else (handle, [])
  ]

  unfoldable pub read_all : Disk R → Muxer → Muxer × List (Update R)
  read_all disk [] = ([], [])
  read_all disk ((name, handle) ∷ m) =
      let (handle', updates) = read (disk name) handle in
      let (m', more) = read_all disk m in ((name, handle') ∷ m', updates ++ more)

  unfoldable pub select : Disk R → Muxer → Result MuxerError (Muxer × List (Update R))
  select disk m = bind_processes disk m >>= λ bound. ok (read_all disk bound)

  -- `has_data`: a process that is registered but has no file yet raises AttributeError.
  unfoldable pub has_data : Disk R → Muxer → String → Result MuxerError (Muxer × Bool)
  has_data disk m process = bind_processes disk m >>= λ bound. elim (get bound process) [
    | none ↦ ok (bound, false)
    | some handle ↦ elim handle.fp [
      | none ↦ err attribute_error
      | some position ↦ ok (bound, ltb position (length (records_of (disk process))))
    ]
  ]
