-- ===== src/Thermos/Muxer/Forward.antt =====
-- src/main/python/apache/thermos/core/muxer.py: what is left of a file once it is fast forwarded.
use aurora_client.Base.{
  ◌≤◌, ◌≡◌, refl, Bool, true, ◌&&◌, List, [], ◌∷◌, arith, keep_if, length, drop,
}
use aurora_client.Base.Int.{ℤ, ltb_ℤ, ◌≤ℤ◌}
use aurora_client.Thermos.Muxer.{Update, fast_forward}

module _ {R : Type 0} where
  -- The sequence numbers grow, from above a first.
  unfoldable pub is_increasing : ℤ → List (Update R) → Bool
  is_increasing since [] = true
  is_increasing since (u ∷ us) = ltb_ℤ since u.seq && is_increasing u.seq us

  unfoldable pub is_new : ℤ → Update R → Bool
  is_new watermark u = ltb_ℤ watermark u.seq

  all_new :
      (watermark since : ℤ) (us : List (Update R))
      → watermark ≤ℤ since
      → is_increasing since us ≡ true
      → keep_if (is_new watermark) us ≡ us
  unfolding is_increasing is_new
  all_new watermark since [] h k = refl
  all_new watermark since (u ∷ us) h k = ground (arith, all_new watermark u.seq us)

  pub drop-fast_forward :
      (watermark since : ℤ) (us : List (Update R))
      → is_increasing since us ≡ true
      → drop (fast_forward watermark since us) us ≡ keep_if (is_new watermark) us
  unfolding is_increasing is_new fast_forward drop
  drop-fast_forward watermark since [] h = refl
  drop-fast_forward watermark since (u ∷ us) h =
      ground (arith, drop-fast_forward watermark u.seq us, all_new watermark u.seq us)

  pub fast_forward_le :
      (watermark since : ℤ) (us : List (Update R)) → fast_forward watermark since us ≤ length us
  unfolding fast_forward
  fast_forward_le watermark since [] = omega arith
  fast_forward_le watermark since (u ∷ us) = ground (arith, fast_forward_le watermark u.seq us)
