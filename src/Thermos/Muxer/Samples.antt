-- ===== src/Thermos/Muxer/Samples.antt =====
-- A process whose checkpoint appears late, on which the delivery is run, with tests.
use aurora_client.Base.{
  ℕ, ◌≡◌, refl, true, none, some, List, [], ◌∷◌, ◌++◌, all, keep_if, map, ok, drop, if◌then◌else◌,
  ◌==◌, string_eq, arith, ==_iff, Bool-cases, inl, inr,
}
use aurora_client.Base.Int.{ℤ, pos, negsuc}
use aurora_client.Base.Dicts.{get, IsDict}
use aurora_client.Thermos.Muxer.{
  Update, Opened, file, missing, Disk, Handle, Muxer, records_of, fast_forward, bind,
  bind_processes, read, read_all, select,
}
use aurora_client.Thermos.Muxer.Forward.{is_increasing, is_new}
use aurora_client.Thermos.Muxer.Stream.{growing, appears, concat}
use aurora_client.Thermos.Muxer.Delivery.{is_of, Own, selects, selects_deliver}

abbrev update : ℤ → Update ℕ
update seq = record { process = "main"; seq = seq; rest = 0 }

abbrev at_first : List (Update ℕ)
at_first = update (pos 0) ∷ update (pos 1) ∷ []

abbrev later : List (List (Update ℕ))
later = (update (pos 2) ∷ []) ∷ []

abbrev the_missing : Opened ℕ
the_missing = missing

abbrev disk_with : Opened ℕ → Disk ℕ
disk_with opened name = if name == "main" then opened else missing

abbrev disks : List (Disk ℕ)
disks =
    disk_with missing
    ∷ disk_with (file at_first)
    ∷ disk_with (file (at_first ++ update (pos 2) ∷ []))
    ∷ []

-- Record 0 was written by the runner itself.
abbrev handle : Handle
handle = record { fp = none; watermark = pos 0 }

abbrev muxer : Muxer
muxer = ("main", handle) ∷ []

abbrev delivered : List (Update ℕ)
delivered = update (pos 1) ∷ update (pos 2) ∷ []

delivers : selects muxer disks ≡ ok delivered
unfolding selects select bind_processes bind fast_forward read_all read drop
delivers = refl

disk_with-Own :
    (opened : Opened ℕ) → all (is_of "main") (records_of opened) ≡ true → Own (disk_with opened)
unfolding Own
disk_with-Own opened h name = elim (Bool-cases (name == "main")) [
  | inl here ↦ ground (arith, here, h, ==_iff name "main")
  | inr other ↦ ground (arith, other)
]

nothing_there : all (is_of "main") (records_of the_missing) ≡ true
nothing_there = refl

first_own : all (is_of "main") at_first ≡ true
unfolding is_of
first_own = refl

all_own : all (is_of "main") (at_first ++ update (pos 2) ∷ []) ≡ true
unfolding is_of
all_own = refl

one_process : IsDict muxer
unfolding IsDict get
one_process = (refl, tt)

registered : get muxer "main" ≡ some handle
unfolding get
registered = refl

seen : map (λ disk. disk "main") disks ≡ appears 1 (at_first ∷ later)
unfolding appears growing
seen = refl

first_grows : is_increasing (negsuc 0) at_first ≡ true
unfolding is_increasing
first_grows = refl

later_new : all (is_new (pos 0)) (concat later) ≡ true
unfolding is_new concat
later_new = refl

selects_deliver_example :
    keep_if (is_of "main") delivered ≡ keep_if (is_new (pos 0)) (at_first ++ concat later)
selects_deliver_example =
    selects_deliver disks muxer delivered "main" (pos 0) 1 at_first later
      (
        disk_with-Own missing nothing_there,
        (
          disk_with-Own (file at_first) first_own,
          (disk_with-Own (file (at_first ++ update (pos 2) ∷ [])) all_own, tt),
        ),
      )
      one_process registered seen first_grows later_new delivers
