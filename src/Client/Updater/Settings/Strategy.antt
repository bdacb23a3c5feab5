-- ===== src/Client/Updater/Settings/Strategy.antt =====
-- The strategy that the settings of an update name.
use aurora_client.Base.{
  ℕ, ◌+◌, ◌≡◌, refl, sym, subst, Bool, true, false, Option, none, some, List, arith, is_some,
  Result, ok, Result-cases, inl, inr,
}
use aurora_client.Base.Int.{ℤ}
use aurora_client.Client.Updater.{UpdateStrategy, queue, batch, variable_batch, UpdaterConfig, init}
use aurora_client.Client.Updater.Config.{IsAccepted, init-IsAccepted}
use aurora_client.Client.Updater.Settings.{
  JobUpdateStrategy, JobUpdateSettings, create_update_strategy_config, settle,
  to_thrift_update_settings,
}

abbrev pub one_if : Bool → ℕ
one_if true = 1
one_if false = 0

abbrev pub strategies : JobUpdateStrategy → ℕ
strategies s =
    one_if (is_some s.queue_strategy)
    + one_if (is_some s.batch_strategy)
    + one_if (is_some s.var_batch_strategy)

module _ {E : Type 0} (group_size : UpdateStrategy → Result E ℤ) where
  by_strategy :
      (c : UpdaterConfig) (instances : List ℕ) (s : JobUpdateSettings) (o : Option UpdateStrategy)
      → c.update_strategy ≡ o
      → IsAccepted c
      → to_thrift_update_settings group_size c instances ≡ ok s
      → (strategies s.update_strategy ≡ 1)
        × (s.wait_for_batch_completion ≡ is_some s.update_strategy.batch_strategy)
  unfolding to_thrift_update_settings settle create_update_strategy_config
  by_strategy c instances s none u a e = (ground arith, ground arith)
  by_strategy c instances s (some (queue size)) u a e =
      elim (Result-cases (group_size (queue size))) [
        | inl (n, g) ↦ (ground (arith, a.unambiguous), ground (arith, a.unambiguous))
        | inr (raised, g) ↦ (ground arith, ground arith)
      ]
  by_strategy c instances s (some (batch size pause)) u a e =
      elim (Result-cases (group_size (batch size pause))) [
        | inl (n, g) ↦ (ground arith, ground arith)
        | inr (raised, g) ↦ (ground arith, ground arith)
      ]
  by_strategy c instances s (some (variable_batch sizes pause)) u a e =
      (ground (arith, a.unambiguous), ground (arith, a.unambiguous))

  -- The settings of a configuration that was accepted name exactly one strategy, and say that the
  -- update waits for batches exactly if that is the batch strategy.
  pub settings_agree :
      (c d : UpdaterConfig) (instances : List ℕ) (s : JobUpdateSettings)
      → init c ≡ ok d
      → to_thrift_update_settings group_size d instances ≡ ok s
      → (strategies s.update_strategy ≡ 1)
        × (s.wait_for_batch_completion ≡ is_some s.update_strategy.batch_strategy)
  settings_agree c d instances s i e =
      let (accepted, same) = init-IsAccepted c d i in
      by_strategy d instances s d.update_strategy refl (subst IsAccepted (sym same) accepted) e
