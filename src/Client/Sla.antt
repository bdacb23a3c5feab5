-- ===== src/Client/Sla.antt =====
-- src/main/python/apache/aurora/client/api/sla.py: for how long the instances of a job have been up,
-- and which hosts can go down without breaking the promise made to a job. Percentiles are whole
-- percents, durations are whole seconds and times are milliseconds; on these the floats of the code
-- compare and round as the exact fractions do (a quotient is compared with a whole number, and a
-- whole number of instances is divided by 100).
pub mod Rank
pub mod WaitTime
pub mod Uptime
pub mod Domain
pub mod Mappings
pub mod Query
pub mod Down
pub mod Hosts
pub mod Probe
mod Samples
use aurora_client.Base.{
  ℕ, ◌+◌, ◌-◌, ◌*◌, ◌/◌, Bool, true, false, ◌||◌, Option, none, some, List, [], ◌∷◌, if◌then◌else◌,
  map, leb, ltb, nat_beq, length, Result, ok, err, nat_eq, String,
}
use mathlib.Core.Option
use aurora_client.Base.Int.{ℤ, pos, negsuc, ◌-ℤ◌, leb_ℤ}
use aurora_client.Base.Dicts.{Dict, put}
use aurora_client.Base.Sorting.{count_if, get_elem?, sort_by}
use aurora_client.Client.Watcher.{ScheduleStatus, is_running}

pub record TaskEvent : Type 0 where
  pub status : ScheduleStatus
  -- in milliseconds
  pub timestamp : ℤ

-- What the module reads of a `ScheduledTask`; `K` is the type of job keys.
pub record SlaTask (K : Type 0) : Type 0 where
  pub instance_id : ℕ
  pub job : K
  pub production : Bool
  pub slave_host : String
  pub task_events : List TaskEvent

-- `math.floor(x / n)`
unfoldable pub floor_div : ℤ → ℕ → ℤ
floor_div (pos a) n = pos (a / n)
floor_div (negsuc a) n = negsuc (a / n)

-- `math.ceil(x / n)`
abbrev pub ceil_div : ℕ → ℕ → ℕ
ceil_div a n = (a + (n - 1)) / n

-- The first event that says RUNNING: the inner loop breaks there.
unfoldable pub first_running : List TaskEvent → Option TaskEvent
first_running [] = none
first_running (event ∷ events) =
    if is_running event.status then some event else first_running events

unfoldable pub uptime : ℤ → TaskEvent → ℤ
uptime now event = floor_div (now -ℤ event.timestamp) 1000

unfoldable pub values : Dict ℕ ℤ → List ℤ
values d = map (λ entry. entry.1) d

-- `upcount` as the quotient of two numbers.
pub record UpCount : Type 0 where
  pub part : ℕ
  pub whole : ℕ

-- `upcount >= percentile`
unfoldable pub at_least : UpCount → ℕ → Bool
at_least u percentile = leb (percentile * u.whole) u.part

-- `total_tasks or len(self._uptime_map)`
unfoldable pub or_length : Option ℕ → Dict ℕ ℤ → ℕ
or_length none uptimes = length uptimes
or_length (some total) uptimes = if nat_beq total 0 then length uptimes else total

unfoldable pub get_task_up_count : Dict ℕ ℤ → ℤ → Option ℕ → UpCount
get_task_up_count uptimes duration total_tasks =
    let total = or_length total_tasks uptimes in
    let above = count_if (λ up. leb_ℤ duration up) (values uptimes) in
    if nat_beq total 0
    then record { part = 0; whole = 1 }
    else record { part = 100 * above; whole = total }

-- `none` for `None`: no wait makes up for instances that are not there.
unfoldable pub get_wait_time_to_sla : Dict ℕ ℤ → ℕ → ℤ → Option ℕ → Option ℤ
get_wait_time_to_sla uptimes percentile duration total_tasks =
    let elements = length uptimes in
    let target_count = ceil_div (or_length total_tasks uptimes * percentile) 100 in
    if at_least (get_task_up_count uptimes duration total_tasks) percentile
    then some (pos 0)
    else if ltb elements target_count || leb elements (elements - target_count)
    then none
    else Option.map (λ up. duration -ℤ up)
        (get_elem? (sort_by leb_ℤ (values uptimes)) (elements - target_count))

pub data SlaError : Type 0 where
  value_error : SlaError

-- `math.floor(percentile / 100.0 * total)` is a product of floats, which may fall short of the whole
-- number that it stands for: the product is a parameter.
unfoldable pub get_job_uptime : (ℕ → ℕ → ℕ) → Dict ℕ ℤ → ℕ → Result SlaError ℤ
get_job_uptime scaled uptimes percentile =
    let total = length uptimes in
    let value = scaled percentile total in
    if leb percentile 0 || leb 100 percentile
    then err value_error
    else ok (
        if ltb value total
        then Option.get_or (get_elem? (sort_by leb_ℤ (values uptimes)) (total - value - 1)) (pos 0)
        else pos 0)

module _ {K : Type 0} where
  unfoldable pub put_uptime : ℤ → Dict ℕ ℤ → SlaTask K → Dict ℕ ℤ
  put_uptime now uptimes task = elim (first_running task.task_events) [
    | none ↦ uptimes
    | some event ↦ put uptimes task.instance_id (uptime now event)
  ]

  unfoldable pub put_uptimes : ℤ → Dict ℕ ℤ → List (SlaTask K) → Dict ℕ ℤ
  put_uptimes now uptimes [] = uptimes
  put_uptimes now uptimes (task ∷ tasks) = put_uptimes now (put_uptime now uptimes task) tasks

  -- `_instance_uptime`
  unfoldable pub instance_uptime : ℤ → List (SlaTask K) → Dict ℕ ℤ
  instance_uptime now tasks = put_uptimes now [] tasks
