-- ===== src/Admin/Maintenance.antt =====
-- src/main/python/apache/aurora/admin/host_maintenance.py and `format_sla_results` of admin_util.py:
-- hosts are put into maintenance and drained, one group at a time. What the scheduler answers is a
-- record of functions; the clock counts the polls. The deprecated output file is left out.
pub mod Waiting
pub mod Groups
pub mod Probed
pub mod Promises
pub mod Within
pub mod Operated
mod Samples
use aurora_client.Base.{
  ℕ, zero, suc, ◌+◌, String, Bool, true, false, not, ◌&&◌, ◌||◌, Option, none, some, List, [], ◌∷◌,
  ◌++◌, string_eq, string_leb, Eq, if◌then◌else◌, is_nil, keep_if, length, ltb, map, Result, ok,
  err, ◌>>=◌, all,
}
use aurora_client.Base.Int.{ℤ}
use aurora_client.Base.Sets.{member, minus, union, to_set}
use aurora_client.Base.Dicts.{Dict, keys}
use aurora_client.Base.Sorting.{sort_by}
use aurora_client.Client.Grouping.{GroupingFunctions, group_hosts}
use aurora_client.Client.Sla.Domain.{JobUpTimeDetails, JobUpTimeLimit, DomainVector, probe_hosts}
use aurora_client.Client.Sla.{SlaTask}
use aurora_client.Client.Sla.Query.{TaskQuery, get_domain_uptime_vector}

pub data MaintenanceMode : Type 0 where
  no_maintenance scheduled draining drained : MaintenanceMode

abbrev pub is_drained : MaintenanceMode → Bool
is_drained drained = true
is_drained _ = false

-- The client ends (`sys.exit`); or a loop is stopped before it ends, which no run does.
pub data Stop : Type 0 where
  exited out_of_fuel : Stop

abbrev pub Statuses : Type 0
Statuses = List (String × MaintenanceMode)

-- What the scheduler answers, `none` (or `false`) where its response is not OK; `interrupted` is
-- whether the wait event is set at that poll.
pub record Scheduler (K : Type 0) : Type 0 where
  pub start_maintenance : List String → Option (List String)
  pub get_tasks_without_configs : TaskQuery K → Option (List (SlaTask K))
  pub drain_hosts : List String → Bool
  pub maintenance_status : ℕ → List String → Option Statuses
  pub interrupted : ℕ → Bool
  pub time : ℕ → ℤ

-- STATUS_POLL_INTERVAL and MAX_STATUS_WAIT, in seconds.
abbrev pub status_poll_interval : ℕ
status_poll_interval = 5

abbrev pub max_status_wait : ℕ
max_status_wait = 300

unfoldable pub not_drained : Statuses → List String
not_drained statuses =
    to_set (map (λ status. status.0) (keep_if (λ status. not (is_drained status.1)) statuses))

-- Each poll adds to the wait, so that there are at most 60 of them, and one more look at the event.
abbrev pub enough_fuel : ℕ
enough_fuel = 61

module _ {K : Type 0} where
  -- The loop of `_drain_hosts`: the clock and the hosts that are not drained.
  unfoldable pub wait_drained :
      Scheduler K → ℕ → ℕ → ℕ → List String → Result Stop (ℕ × List String)
  wait_drained s zero clock total_wait hostnames = err out_of_fuel
  wait_drained s (suc fuel) clock total_wait hostnames =
      if s.interrupted clock || is_nil hostnames
      then ok (clock, hostnames)
      else elim (s.maintenance_status clock hostnames) [
        | none ↦ err exited
        | some statuses ↦
            let remaining = not_drained statuses in
            let total = total_wait + status_poll_interval in
            let rest = wait_drained s fuel (suc clock) total remaining in
            if not (is_nil remaining) && ltb max_status_wait total
            then ok (suc clock, remaining)
            else rest
      ]

  unfoldable pub drain : Scheduler K → ℕ → List String → Result Stop (ℕ × List String)
  drain s clock hostnames =
      if s.drain_hosts hostnames
      then wait_drained s enough_fuel clock status_poll_interval (to_set hostnames)
      else err exited

  -- The hosts that `format_sla_results` writes out, if it is to write the unsafe ones only.
  unfoldable pub unsafe_hosts : Dict String (List (JobUpTimeDetails K)) → List String
  unsafe_hosts group = keys (keep_if (λ entry. not (all (λ details. details.safe) entry.1)) group)

  unfoldable pub unsafe_in_all : List (Dict String (List (JobUpTimeDetails K))) → List String
  unsafe_in_all [] = []
  unsafe_in_all (group ∷ groups) = union (unsafe_hosts group) (unsafe_in_all groups)

-- SLA_MIN_JOB_INSTANCE_COUNT
abbrev pub sla_min_job_instance_count : ℕ
sla_min_job_instance_count = 20

-- How far `perform_maintenance` is: the clock, the hosts that were not drained, and those that the
-- callback was called for.
pub record Progress : Type 0 where
  pub clock : ℕ
  pub left : List String
  pub operated : List String

-- `iter_batches`
unfoldable pub iter_batches : GroupingFunctions → List String → String → Option (List (List String))
iter_batches functions hostnames grouping = elim (group_hosts functions hostnames grouping) [
  | none ↦ none
  | some groups ↦ some (map (λ g. g.1) (sort_by (λ a b. string_leb a.0 b.0) groups))
]

module _ {K : Type 0} ⦃e : Eq K⦄ where
  -- `sla_get_safe_domain_vector`
  unfoldable pub domain_vector : Scheduler K → ℕ → List String → DomainVector K
  domain_vector s clock hostnames =
      get_domain_uptime_vector s.get_tasks_without_configs (s.time clock) sla_min_job_instance_count
        hostnames

  -- `_check_sla`; `none` where the client dies at an unknown grouping function.
  unfoldable pub check_sla :
      GroupingFunctions
      → Scheduler K
      → String
      → JobUpTimeLimit
      → ℕ
      → List String
      → Option (List String)
  check_sla functions s grouping limit clock hostnames =
      elim (probe_hosts functions (domain_vector s clock hostnames) limit grouping) [
        | none ↦ none
        | some groups ↦
            some (if ltb 1 (length groups) then to_set hostnames else unsafe_in_all groups)
      ]

  -- What is drained of a batch, once the hosts that did not pass the check are known.
  unfoldable pub drain_batch : Scheduler K → Bool → Progress → List String → Result Stop Progress
  drain_batch s callback p hosts = drain s p.clock hosts >>= λ drained_hosts.
      let left = union p.left drained_hosts.1 in
      ok (record {
        clock = drained_hosts.0;
        left = left;
        operated = p.operated ++ (if callback then minus hosts left else []);
      })

  -- The body of the loop of `perform_maintenance`.
  unfoldable pub maintain_batch :
      GroupingFunctions
      → Scheduler K
      → String
      → JobUpTimeLimit
      → Bool
      → Progress
      → List String
      → Result Stop Progress
  maintain_batch functions s grouping limit callback p hosts =
      elim (check_sla functions s grouping limit p.clock hosts) [
        | none ↦ err exited
        | some unsafe ↦
            let p' = record p { left = union p.left unsafe } in
            let drained_rest = drain_batch s callback p' (minus hosts unsafe) in
            if is_nil unsafe
            then drain_batch s callback p hosts
            else if is_nil (minus hosts unsafe)
            then ok p'
            else drained_rest
      ]

  unfoldable pub maintain_batches :
      GroupingFunctions
      → Scheduler K
      → String
      → JobUpTimeLimit
      → Bool
      → Progress
      → List (List String)
      → Result Stop Progress
  maintain_batches functions s grouping limit callback p [] = ok p
  maintain_batches functions s grouping limit callback p (batch ∷ batches) =
      maintain_batch functions s grouping limit callback p batch >>= λ p'.
      maintain_batches functions s grouping limit callback p' batches

  -- The hosts that were drained, and what else came of the run.
  unfoldable pub perform_maintenance :
      GroupingFunctions
      → Scheduler K
      → List String
      → String
      → JobUpTimeLimit
      → Bool
      → Result Stop (List String × Progress)
  perform_maintenance functions s hostnames grouping limit callback =
      elim (s.start_maintenance hostnames) [
        | none ↦ err exited
        | some known ↦ elim (iter_batches functions known grouping) [
          | none ↦ err exited
          | some batches ↦
              maintain_batches functions s grouping limit callback
                (record { clock = 0; left = []; operated = [] }) batches
              >>= λ p. ok (minus (to_set known) p.left, p)
        ]
      ]
