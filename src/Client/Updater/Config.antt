-- ===== src/Client/Updater/Config.antt =====
-- Which update configurations are accepted.
use aurora_client.Base.{◌≡◌, refl, true, false, Option, none, some, arith, is_some, ok}
use aurora_client.Base.Int.{ℤ, pos, ◌≤ℤ◌}
use aurora_client.Client.Updater.{UpdaterConfig, init}

-- The promise of an accepted configuration.
pub record IsAccepted (c : UpdaterConfig) : Type 0 where
  pub batch_positive : pos 1 ≤ℤ c.batch_size
  pub watch_nonnegative : pos 0 ≤ℤ c.watch_secs
  pub pulse_long : (secs : ℤ) → c.pulse_interval_secs ≡ some secs → pos 60 ≤ℤ secs
  pub unambiguous :
      is_some c.update_strategy ≡ true
      → (c.wait_for_batch_completion ≡ false) × (c.batch_size ≡ pos 1)

-- A configuration that the constructor accepts has a positive batch size, a watch time that is
-- not negative and a pulse interval, if any, of a minute at least; with an explicit strategy it
-- has the default batch size 1 and does not wait for batches. It is kept as it is.
pub init-IsAccepted : (c d : UpdaterConfig) → init c ≡ ok d → IsAccepted c × (d ≡ c)
unfolding init
init-IsAccepted c d e = (
  record {
    batch_positive = ground arith;
    watch_nonnegative = ground arith;
    pulse_long = λ secs h. ground arith;
    unambiguous = λ h. (ground arith, ground arith);
  },
  ground arith,
)

-- A configuration with a positive batch size, a watch time that is not negative and a pulse
-- interval, if any, of a minute at least, and, if it has an explicit strategy, the batch size 1
-- and no waiting for batches, is accepted and kept as it is.
pub IsAccepted-init : (c : UpdaterConfig) → IsAccepted c → init c ≡ ok c
unfolding init
IsAccepted-init c a = accepted c a c.pulse_interval_secs refl
  where
    accepted :
        (c : UpdaterConfig)
        → IsAccepted c
        → (o : Option ℤ) → c.pulse_interval_secs ≡ o
        → init c ≡ ok c
    accepted c a none e = ground (arith, a.unambiguous)
    accepted c a (some secs) e = ground (arith, a.unambiguous, a.pulse_long secs e)
