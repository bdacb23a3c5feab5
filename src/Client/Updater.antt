-- ===== src/Client/Updater.antt =====
-- src/main/python/apache/aurora/client/api/updater_util.py: the checks of `UpdaterConfig`, the
-- ranges of instances, and `FailureThreshold`.
pub mod Ranges
pub mod Maximal
pub mod Config
pub mod Threshold
pub mod Settings
mod Samples
use aurora_client.Base.{
  ℕ, zero, suc, ◌+◌, ◌-◌, ◌*◌, String, Bool, true, false, not, ◌&&◌, ◌||◌, Option, none, some, List,
  [], ◌∷◌, ◌++◌, map, if◌then◌else◌, is_some, Result, ok, err, ◌==◌, nat_eq, ltb, length, keep_if,
}
use aurora_client.Base.Int.{ℤ, pos, sub_ℕ, ltb_ℤ, leb_ℤ, int_eq}
use aurora_client.Base.Dicts.{Dict, get, put, get_default}

pub data UpdateStrategy : Type 0 where
  queue : ℤ → UpdateStrategy
  batch : ℤ → Bool → UpdateStrategy
  variable_batch : List ℤ → Bool → UpdateStrategy

-- The fields of the schema's `UpdateConfig`; `Empty` is none.
pub record UpdaterConfig : Type 0 where
  pub batch_size : ℤ
  pub watch_secs : ℤ
  pub max_total_failures : ℤ
  pub max_per_instance_failures : ℤ
  pub update_strategy : Option UpdateStrategy
  pub sla_aware : Bool
  pub wait_for_batch_completion : Bool
  pub rollback_on_failure : Bool
  pub pulse_interval_secs : Option ℤ

pub data ConfigError : Type 0 where
  batch_size_not_positive watch_secs_negative pulse_interval_too_short : ConfigError
  wait_with_strategy batch_size_with_strategy : ConfigError

abbrev pub min_pulse_interval_seconds : ℤ
min_pulse_interval_seconds = pos 60

abbrev pub too_short : Option ℤ → Bool
too_short none = false
too_short (some secs) = ltb_ℤ secs min_pulse_interval_seconds

-- `__init__` keeps the fields of the schema and raises `ValueError` at the first check that fails.
unfoldable pub init : UpdaterConfig → Result ConfigError UpdaterConfig
init c =
    if leb_ℤ c.batch_size (pos 0)
    then err batch_size_not_positive
    else if ltb_ℤ c.watch_secs (pos 0)
    then err watch_secs_negative
    else if too_short c.pulse_interval_secs
    then err pulse_interval_too_short
    else if c.wait_for_batch_completion && is_some c.update_strategy
    then err wait_with_strategy
    else if ltb_ℤ (pos 1) c.batch_size && is_some c.update_strategy
    then err batch_size_with_strategy
    else ok c

pub record Range : Type 0 where
  pub first : ℕ
  pub last : ℕ

-- `pair[0] - pair[1]` for the pairs of `enumerate(instances)`
abbrev pub key : ℕ → ℕ → ℤ
key index instance_id = sub_ℕ index instance_id

-- `groupby` over the rest of the enumeration, from `index` on. `start` and `last` are the first
-- and the latest instance of the group that is open, and `k` is its key.
unfoldable pub group_ranges : ℤ → ℕ → ℕ → ℕ → List ℕ → List Range
group_ranges k start last index [] = record { first = start; last = last } ∷ []
group_ranges k start last index (x ∷ xs) =
    if key index x == k
    then group_ranges k start x (index + 1) xs
    else record { first = start; last = last } ∷ group_ranges (key index x) x x (index + 1) xs

-- `None` for no instances
unfoldable pub instances_to_ranges : List ℕ → Option (List Range)
instances_to_ranges [] = none
instances_to_ranges (x ∷ xs) = some (group_ranges (key 0 x) x x 1 xs)

-- `FailureThreshold`; the counts are a `defaultdict(int)`.
pub record FailureThreshold : Type 0 where
  pub max_per_instance_failures : ℕ
  pub max_total_failures : ℕ
  pub failures_by_instance : Dict ℕ ℕ

abbrev pub new_threshold : ℕ → ℕ → FailureThreshold
new_threshold per_instance total = record {
  max_per_instance_failures = per_instance;
  max_total_failures = total;
  failures_by_instance = [];
}

abbrev pub failures_of : FailureThreshold → ℕ → ℕ
failures_of t i = get_default t.failures_by_instance i 0

abbrev pub count_one : FailureThreshold → ℕ → FailureThreshold
count_one t i = record t {
  failures_by_instance = put t.failures_by_instance i (failures_of t i + 1);
}

-- The new counts, and the instances past the limit, one for each time that they are.
unfoldable pub update_failure_counts : FailureThreshold → List ℕ → FailureThreshold × List ℕ
update_failure_counts t [] = (t, [])
update_failure_counts t (i ∷ is) =
    let counted = count_one t i in
    let (last, exceeded) = update_failure_counts counted is in
    (
      last,
      if ltb t.max_per_instance_failures (failures_of counted i) then i ∷ exceeded else exceeded,
    )

-- `sum(count > limit for count in self._failures_by_instance.values())`
unfoldable pub exceeded_count : ℕ → Dict ℕ ℕ → ℕ
exceeded_count limit [] = 0
exceeded_count limit ((i, n) ∷ d) =
    let rest = exceeded_count limit d in if ltb limit n then suc rest else rest

unfoldable pub is_failed_update : FailureThreshold → Bool
is_failed_update t =
    ltb t.max_total_failures (exceeded_count t.max_per_instance_failures t.failures_by_instance)
