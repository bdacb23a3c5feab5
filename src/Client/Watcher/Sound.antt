-- ===== src/Client/Watcher/Sound.antt =====
-- What holds of the states of a watch at every turn.
use aurora_client.Base.{
  ℕ, ◌+◌, ◌<◌, ◌≡◌, refl, subst, Bool, true, false, ◌&&◌, Option, none, some, List, [], arith,
  if◌then◌else◌, ok, ltb, ==_iff, ◌==◌, nat_eq, is_some, Option-cases, Bool-cases, inl, inr,
}
use aurora_client.Base.Sets.{member, member-keep_if}
use aurora_client.Base.Dicts.{get, put, get-put, keys, member-keys}
use aurora_client.Client.Watcher.{
  Instance, set_healthy, States, born, set_instance_healthy, set_instance_unhealthy, holds,
  is_finished, select,
}

pub member-select :
    (test : Instance → Bool) (states : States) (k : ℕ)
    → member k (select test states) ≡ holds test (get states k)
unfolding select
member-select test states k = ground (
  arith,
  member-keep_if (λ j. holds test (get states j)) (keys states) k,
  member-keys states k,
  found (get states k),
)
  where
    found : (o : Option Instance) → holds test o ≡ (holds test o && is_some o)
    found none = refl
    found (some i) = ground arith

-- An instance k was seen well at two times that are more than `watch_secs` apart.
abbrev pub Apart : (ℕ → ℕ → Type 0) → ℕ → ℕ → Type 0
Apart Well watch_secs k = (b e : ℕ) × Well k b × Well k e × (b + watch_secs < e)

-- `Well k now`: what is taken for the instance k having been seen well at a time.
module _ (Well : ℕ → ℕ → Type 0) (watch_secs : ℕ) (ids : List ℕ) where
  -- An instance that goes on was seen well at its birthday; a healthy one long after it, too.
  pub record Fine (k : ℕ) (i : Instance) : Type 0 where
    pub live : i.finished ≡ false → (b : ℕ) × (i.birthday ≡ some b) × Well k b
    pub survived : i.healthy ≡ true → Apart Well watch_secs k

  pub record Sound (states : States) : Type 0 where
    pub known : (k : ℕ) (i : Instance) → get states k ≡ some i → member k ids ≡ true
    pub fine : (k : ℕ) (i : Instance) → get states k ≡ some i → Fine k i

module _ {Well : ℕ → ℕ → Type 0} {watch_secs : ℕ} {ids : List ℕ} where
  put-Sound :
      (states : States) (k : ℕ) (i : Instance)
      → Sound Well watch_secs ids states
      → member k ids ≡ true
      → Fine Well watch_secs ids k i
      → Sound Well watch_secs ids (put states k i)
  put-Sound states k i v m f = record {
    known = λ j i' e. ground (arith, get-put states k i j, ==_iff k j, v.known j i');
    fine = λ j i' e. elim (Bool-cases (k == j)) [
      | inl same ↦
          let e' : i ≡ i' = ground (arith, get-put states k i j) in
          let e'' : k ≡ j = (==_iff k j).0 same in
          subst (λ n. Fine Well watch_secs ids n i') e'' (subst (Fine Well watch_secs ids k) e' f)
      | inr other ↦ v.fine j i' (ground (arith, get-put states k i j))
    ];
  }

  aged :
      (k : ℕ) (i : Instance) (b now : ℕ)
      → i.birthday ≡ some b
      → Well k b
      → Fine Well watch_secs ids k i
      → Well k now
      → Fine Well watch_secs ids k (if ltb (b + watch_secs) now then set_healthy i true else i)
  aged k i b now e seen f well = elim (Bool-cases (ltb (b + watch_secs) now)) [
    | inl old ↦
        rw old (record { live = λ h. cc; survived = λ h. (b, now, seen, well, ground arith) })
    | inr young ↦ rw young f
  ]

  born-Fine : (k now : ℕ) → Well k now → Fine Well watch_secs ids k (born now)
  born-Fine k now well = record { live = λ h. (now, refl, well); survived = λ h. cc }

  pub healthy-Sound :
      (states : States) (k now : ℕ)
      → Sound Well watch_secs ids states
      → member k ids ≡ true
      → Well k now
      → is_finished (get states k) ≡ false
      → (next : States) × (set_instance_healthy watch_secs states k now ≡ ok next)
        × Sound Well watch_secs ids next
  unfolding set_instance_healthy
  healthy-Sound states k now v m well unset = elim (Option-cases (get states k)) [
    | inl new ↦ (
      put states k (if ltb (now + watch_secs) now then set_healthy (born now) true else born now),
      ground (arith, new),
      put-Sound states k _ v m (aged k (born now) now now refl well (born-Fine k now well) well),
    )
    | inr (i, e) ↦
        let (b, e', seen) = (v.fine k i e).live (ground arith) in
        (
          put states k (if ltb (b + watch_secs) now then set_healthy i true else i),
          ground (arith, e, e'),
          put-Sound states k _ v m (aged k i b now e' seen (v.fine k i e) well),
        )
  ]

  pub unhealthy-Sound :
      (states : States) (k : ℕ)
      → Sound Well watch_secs ids states
      → member k ids ≡ true
      → Sound Well watch_secs ids (set_instance_unhealthy states k)
  unfolding set_instance_unhealthy
  unhealthy-Sound states k v m = elim (Option-cases (get states k)) [
    | inl new ↦
        rw (new, set_instance_unhealthy)
          (put-Sound states k _ v m (record { live = λ h. cc; survived = λ h. cc }))
    | inr (i, e) ↦
        rw (e, set_instance_unhealthy)
          (put-Sound states k _ v m (record { live = λ h. cc; survived = λ h. cc }))
  ]

pub empty-Sound :
    (Well : ℕ → ℕ → Type 0) (watch_secs : ℕ) (ids : List ℕ) → Sound Well watch_secs ids []
unfolding get
empty-Sound Well watch_secs ids = record { known = λ k i e. cc; fine = λ k i e. cc }
