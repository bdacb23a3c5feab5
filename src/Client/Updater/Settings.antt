-- ===== src/Client/Updater/Settings.antt =====
-- `UpdaterConfig.to_thrift_update_settings` of src/main/python/apache/aurora/client/api/updater_util.py
-- and `create_update_strategy_config` of src/main/python/apache/aurora/config/thrift.py. What the
-- attribute `groupSize` of a strategy is, or that reading it raises, is said by the pystachio
-- package, and is a parameter.
pub mod Strategy
use aurora_client.Base.{
  ℕ, ◌+◌, ◌*◌, Bool, true, false, not, Option, none, some, List, [], if◌then◌else◌, Result, ok, err,
  ◌>>=◌,
}
use aurora_client.Base.Int.{ℤ, pos, negsuc, beq_ℤ}
use aurora_client.Client.Updater.{
  UpdateStrategy, queue, batch, variable_batch, UpdaterConfig, Range, instances_to_ranges,
}

-- The thrift struct `JobUpdateStrategy`: the size of a queue's group, that of a batch and its pause,
-- and the sizes of the batches and their pause.
pub record JobUpdateStrategy : Type 0 where
  pub queue_strategy : Option ℤ
  pub batch_strategy : Option (ℤ × Bool)
  pub var_batch_strategy : Option (List ℤ × Bool)

unfoldable pub create_update_strategy_config : Option UpdateStrategy → JobUpdateStrategy
create_update_strategy_config none = record {
  queue_strategy = some (pos 1);
  batch_strategy = none;
  var_batch_strategy = none;
}
create_update_strategy_config (some (queue size)) = record {
  queue_strategy = some size;
  batch_strategy = none;
  var_batch_strategy = none;
}
create_update_strategy_config (some (batch size pause)) = record {
  queue_strategy = none;
  batch_strategy = some (size, pause);
  var_batch_strategy = none;
}
create_update_strategy_config (some (variable_batch sizes pause)) = record {
  queue_strategy = none;
  batch_strategy = none;
  var_batch_strategy = some (sizes, pause);
}

pub record JobUpdateSettings : Type 0 where
  pub update_group_size : ℤ
  pub max_per_instance_failures : ℤ
  pub max_failed_instances : ℤ
  pub min_wait_in_instance_running_ms : ℤ
  pub rollback_on_failure : Bool
  pub wait_for_batch_completion : Bool
  pub update_only_these_instances : Option (List Range)
  pub update_strategy : JobUpdateStrategy
  pub block_if_no_pulses_after_ms : Option ℤ
  pub sla_aware : Bool

abbrev to_ms : ℤ → ℤ
to_ms (pos n) = pos (1000 * n)
to_ms (negsuc n) = negsuc (1000 * n + 999)

-- A pulse interval of 0 counts as none.
abbrev pulse_ms : Option ℤ → Option ℤ
pulse_ms none = none
pulse_ms (some secs) = if beq_ℤ secs (pos 0) then none else some (to_ms secs)

module _ {E : Type 0} (group_size : UpdateStrategy → Result E ℤ) where
  -- The first half, which changes the configuration. The third test repeats the second, so a
  -- variable batch strategy changes nothing.
  unfoldable pub settle : UpdaterConfig → Result E UpdaterConfig
  settle c = elim c.update_strategy [
    | none ↦ ok (record c {
      update_strategy =
          some
            (if c.wait_for_batch_completion then batch c.batch_size false else queue c.batch_size);
    })
    | some (queue size) ↦ group_size (queue size) >>= λ size'. ok (record c { batch_size = size' })
    | some (batch size pause) ↦ group_size (batch size pause) >>= λ size'.
        ok (record c { batch_size = size'; wait_for_batch_completion = true })
    | some (variable_batch sizes pause) ↦ ok c
  ]

  unfoldable pub to_thrift_update_settings : UpdaterConfig → List ℕ → Result E JobUpdateSettings
  to_thrift_update_settings config instances = settle config >>= λ c. ok (record {
    update_group_size = c.batch_size;
    max_per_instance_failures = c.max_per_instance_failures;
    max_failed_instances = c.max_total_failures;
    min_wait_in_instance_running_ms = to_ms c.watch_secs;
    rollback_on_failure = c.rollback_on_failure;
    wait_for_batch_completion = c.wait_for_batch_completion;
    update_only_these_instances = instances_to_ranges instances;
    update_strategy = create_update_strategy_config c.update_strategy;
    block_if_no_pulses_after_ms = pulse_ms c.pulse_interval_secs;
    sla_aware = c.sla_aware;
  })
