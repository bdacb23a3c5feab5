-- ===== src/Thermos/Muxer/Stream.antt =====
-- src/main/python/apache/thermos/core/muxer.py: what `select` delivers of one process, over time.
use aurora_client.Base.{
  ℕ, zero, suc, ◌≤◌, ◌≡◌, refl, true, none, some, List, [], ◌∷◌, ◌++◌, arith, keep_if, length,
  length-append, drop, all, Result, ok, ◌>>=◌, Result-cases, inl, inr, string_eq,
}
use aurora_client.Base.Int.{ℤ, negsuc}
use aurora_client.Thermos.Muxer.{
  Update, Opened, file, missing, MuxerError, Handle, fast_forward, bind, read,
}
use aurora_client.Thermos.Muxer.Forward.{is_increasing, is_new, drop-fast_forward, fast_forward_le}

module _ {R : Type 0} where
  -- One process of a `select`.
  unfoldable pub poll : Opened R → Handle → Result MuxerError (Handle × List (Update R))
  poll opened handle = bind opened handle >>= λ bound. ok (read opened bound)

  unfoldable pub follow : Handle → List (Opened R) → Result MuxerError (List (Update R))
  follow handle [] = ok []
  follow handle (opened ∷ more) =
      poll opened handle >>= λ polled. follow polled.0 more >>= λ rest. ok (polled.1 ++ rest)

  -- The file at each turn: it is not there at first, and then only grows.
  unfoldable pub growing : List (Update R) → List (List (Update R)) → List (Opened R)
  growing records [] = []
  growing records (more ∷ rest) = file (records ++ more) ∷ growing (records ++ more) rest

  unfoldable pub appears : ℕ → List (List (Update R)) → List (Opened R)
  appears zero parts = growing [] parts
  appears (suc n) parts = missing ∷ appears n parts

  unfoldable pub concat : List (List (Update R)) → List (Update R)
  concat [] = []
  concat (part ∷ parts) = part ++ concat parts

  append_assoc : (xs ys zs : List (Update R)) → (xs ++ ys) ++ zs ≡ xs ++ (ys ++ zs)
  append_assoc [] ys zs = refl
  append_assoc (x ∷ xs) ys zs = ground (arith, append_assoc xs ys zs)

  drop_all : (n : ℕ) (xs : List (Update R)) → length xs ≤ n → drop n xs ≡ []
  unfolding drop
  drop_all zero [] h = refl
  drop_all zero (x ∷ xs) h = absurd (omega arith)
  drop_all (suc n) [] h = refl
  drop_all (suc n) (x ∷ xs) h = drop_all n xs (omega arith)

  drop-append :
      (n : ℕ) (xs ys : List (Update R)) → n ≤ length xs → drop n (xs ++ ys) ≡ drop n xs ++ ys
  unfolding drop
  drop-append zero xs ys h = refl
  drop-append (suc n) [] ys h = absurd (omega arith)
  drop-append (suc n) (x ∷ xs) ys h = drop-append n xs ys (omega arith)

  -- An open file is read to its end.
  read_open :
      (records : List (Update R)) (handle : Handle) (position : ℕ)
      → handle.fp ≡ some position
      → position ≤ length records
      → ((read (file records) handle).1 ≡ drop position records)
        × ((read (file records) handle).0.fp ≡ some (length records))
  unfolding read
  read_open records handle position at h =
      (ground (arith, at, drop_all position records), ground (arith, at))

  follow_open :
      (records : List (Update R)) (parts : List (List (Update R))) (handle : Handle)
      → handle.fp ≡ some (length records)
      → follow handle (growing records parts) ≡ ok (concat parts)
  unfolding follow growing concat poll bind
  follow_open records [] handle at = refl
  follow_open records (part ∷ parts) handle at =
      let grown = records ++ part in
      let (now, next) =
        read_open grown handle (length records) at (omega (arith, length-append records part)) in
      ground (
        arith,
        at,
        now,
        drop-append (length records) records part (omega arith),
        drop_all (length records) records (omega arith),
        follow_open grown parts (read (file grown) handle).0 next,
      )

  keep_new :
      (watermark : ℤ) (us vs : List (Update R))
      → all (is_new watermark) vs ≡ true
      → keep_if (is_new watermark) us ++ vs ≡ keep_if (is_new watermark) (us ++ vs)
  keep_new watermark [] [] h = refl
  keep_new watermark [] (v ∷ vs) h = ground (arith, keep_new watermark [] vs)
  keep_new watermark (u ∷ us) vs h = ground (arith, keep_new watermark us vs)

  pub follow_file :
      (part : List (Update R)) (parts : List (List (Update R))) (watermark : ℤ)
      → is_increasing (negsuc 0) part ≡ true
      → all (is_new watermark) (concat parts) ≡ true
      → follow (record { fp = none; watermark = watermark }) (growing [] (part ∷ parts))
        ≡ ok (keep_if (is_new watermark) (part ++ concat parts))
  unfolding follow growing poll bind
  follow_file part parts watermark grows later =
      let position = fast_forward watermark (negsuc 0) part in
      let bound : Handle = record { fp = some position; watermark = watermark } in
      let (now, next) =
        read_open part bound position refl (fast_forward_le watermark (negsuc 0) part) in
      ground (
        arith,
        now,
        drop-fast_forward watermark (negsuc 0) part grows,
        follow_open part parts (read (file part) bound).0 next,
        keep_new watermark part (concat parts) later,
      )

  pub follow_missing :
      (n : ℕ) (parts : List (List (Update R))) (watermark : ℤ)
      → follow (record { fp = none; watermark = watermark }) (appears n parts)
        ≡ follow (record { fp = none; watermark = watermark }) (growing [] parts)
  unfolding follow appears poll bind read
  follow_missing zero parts watermark = refl
  follow_missing (suc n) parts watermark =
      elim (Result-cases (follow (record { fp = none; watermark = watermark }) (appears n parts))) [
        | inl (us, e) ↦ ground (arith, follow_missing n parts watermark, e)
        | inr (error, e) ↦ ground (arith, follow_missing n parts watermark, e)
      ]
