-- ===== src/Client/Updater/Samples.antt =====
-- Configurations, instances and failures on which the theorems are run, with tests.
use aurora_client.Client.Updater.{UpdateStrategy, ConfigError}
use aurora_client.Client.Updater.Settings.{
  JobUpdateSettings, settle, to_thrift_update_settings, create_update_strategy_config,
}
use aurora_client.Base.{
  Result, none, ℕ, ◌≡◌, refl, true, false, some, List, [], ◌∷◌, arith, nat_eq, ok, err,
}
use aurora_client.Base.Int.{ℤ, pos, int_eq}
use aurora_client.Client.Updater.{
  UpdaterConfig, queue, batch_size_with_strategy, init, group_ranges, instances_to_ranges,
  FailureThreshold, new_threshold, exceeded_count, is_failed_update,
}
use aurora_client.Client.Updater.Ranges.{expand_ranges, expand-instances_to_ranges}
use aurora_client.Client.Updater.Maximal.{IsIncreasing}

abbrev config : UpdaterConfig
config = record {
  batch_size = pos 1;
  watch_secs = pos 45;
  max_total_failures = pos 0;
  max_per_instance_failures = pos 0;
  update_strategy = some (queue (pos 3));
  sla_aware = false;
  wait_for_batch_completion = false;
  rollback_on_failure = true;
  pulse_interval_secs = some (pos 60);
}

init-config : init config ≡ ok config
unfolding init
init-config = refl

too_large : init (record config { batch_size = pos 2 }) ≡ err batch_size_with_strategy
unfolding init
too_large = refl

abbrev instances : List ℕ
instances = 0 ∷ 1 ∷ 2 ∷ 5 ∷ []

three_ranges :
    instances_to_ranges instances
    ≡ some (record { first = 0; last = 2 } ∷ record { first = 5; last = 5 } ∷ [])
unfolding instances_to_ranges group_ranges
three_ranges = refl

expand-instances_to_ranges_example : expand_ranges (instances_to_ranges instances) ≡ instances
expand-instances_to_ranges_example = expand-instances_to_ranges instances

instances-IsIncreasing : IsIncreasing 0 (1 ∷ 2 ∷ 5 ∷ [])
instances-IsIncreasing = (omega arith, (omega arith, (omega arith, tt)))

abbrev threshold : FailureThreshold
threshold = new_threshold 1 0

abbrev failing : FailureThreshold
failing = record threshold { failures_by_instance = (4, 2) ∷ [] }

has_failed : is_failed_update failing ≡ true
unfolding is_failed_update exceeded_count
has_failed = refl

abbrev reads_size : UpdateStrategy → Result ConfigError ℤ
reads_size strategy = ok (pos 3)

abbrev settings : JobUpdateSettings
settings = record {
  update_group_size = pos 3;
  max_per_instance_failures = pos 0;
  max_failed_instances = pos 0;
  min_wait_in_instance_running_ms = pos 45000;
  rollback_on_failure = true;
  wait_for_batch_completion = false;
  update_only_these_instances = some (record { first = 4; last = 5 } ∷ []);
  update_strategy = record {
    queue_strategy = some (pos 3);
    batch_strategy = none;
    var_batch_strategy = none;
  };
  block_if_no_pulses_after_ms = some (pos 60000);
  sla_aware = false;
}

to_settings : to_thrift_update_settings reads_size config (4 ∷ 5 ∷ []) ≡ ok settings
unfolding to_thrift_update_settings settle create_update_strategy_config instances_to_ranges
    group_ranges
to_settings = refl
