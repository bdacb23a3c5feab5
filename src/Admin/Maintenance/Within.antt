-- ===== src/Admin/Maintenance/Within.antt =====
-- src/main/python/apache/aurora/admin/host_maintenance.py: the check and the drain of a batch speak of
-- no host outside it.
use aurora_client.Base.{
  ℕ, zero, suc, ◌<◌, String, ◌≡◌, refl, Bool, true, not, ◌||◌, some, List, [], ◌∷◌, string_eq,
  string_leb, Eq, map, arith, keep_if, inl, inr, Option-cases, ok, ◌+◌,
}
use aurora_client.Base.Sets.{member, to_set, member-union, member-to_set, member-keep_if}
use aurora_client.Base.Dicts.{Dict, get, get_default, has}
use aurora_client.Base.Sorting.{count_if, sort_by}
use aurora_client.Client.Grouping.{GroupingFunctions, get_grouping_or_die, group_all, group_hosts}
use aurora_client.Client.Sla.Domain.{
  JobUpTimeLimit, JobUpTimeDetails, DomainVector, Group, init, job_keys, job_hosts, append_all,
  probe_job, probe_group, probe_groups, probe_hosts, iter_groups,
}
use aurora_client.Client.Sla.Query.{get_domain_uptime_vector}
use aurora_client.Client.Sla.Down.{append_all_within}
use aurora_client.Admin.Maintenance.{
  Scheduler, Statuses, MaintenanceMode, is_drained, not_drained, wait_drained, drain, unsafe_hosts,
  unsafe_in_all, domain_vector, check_sla,
}
use aurora_client.Admin.Maintenance.Groups.{has_host, groups_once}

module _ {K : Type 0} ⦃e : Eq K⦄ where
  probe_group_within :
      (v : DomainVector K) (limit : JobUpTimeLimit) (hosts : List String) (jobs : List K)
      (probed : Dict String (List (JobUpTimeDetails K))) (host : String)
      → has (probe_group v limit hosts jobs probed) host ≡ true
      → (has probed host || member host hosts) ≡ true
  unfolding probe_group job_hosts
  probe_group_within v limit hosts [] probed host h = ground arith
  probe_group_within v limit hosts (j ∷ jobs) probed host h =
      let x = probe_job v limit (job_hosts v hosts j) j in
      ground (
        arith,
        probe_group_within v limit hosts jobs (append_all probed (job_hosts v hosts j) x) host h,
        append_all_within probed (job_hosts v hosts j) x host,
        member-keep_if (λ h'. member h' (get_default v.hosts_by_job j [])) hosts host,
      )

  unsafe_hosts_within :
      (d : Dict String (List (JobUpTimeDetails K))) (host : String)
      → member host (unsafe_hosts d) ≡ true
      → has d host ≡ true
  unfolding unsafe_hosts member get
  unsafe_hosts_within [] host h = cc
  unsafe_hosts_within ((j, ds) ∷ d) host h = ground (arith, unsafe_hosts_within d host)

  abbrev in_group : String → Group K → Bool
  in_group host group = member host group.0

  unsafe_within :
      (v : DomainVector K) (limit : JobUpTimeLimit) (groups : List (Group K)) (host : String)
      → member host (unsafe_in_all (probe_groups v limit groups)) ≡ true
      → 0 < count_if (in_group host) groups
  unfolding probe_groups unsafe_in_all member count_if get
  unsafe_within v limit [] host h = cc
  unsafe_within v limit ((hosts, jobs) ∷ groups) host h =
      let probed = probe_group v limit hosts jobs [] in
      let rest = unsafe_in_all (probe_groups v limit groups) in
      ground (
        arith,
        unsafe_within v limit groups host,
        member-union (unsafe_hosts probed) rest host,
        unsafe_hosts_within probed host,
        probe_group_within v limit hosts jobs [] host,
      )

  count_groups :
      (v : DomainVector K) (groups : Dict String (List String)) (host : String)
      → count_if (in_group host) (map (λ group. (group.1, job_keys v [] group.1 [])) groups)
        ≡ count_if (has_host host) groups
  unfolding count_if
  count_groups v [] host = refl
  count_groups v (g ∷ groups) host = ground (arith, count_groups v groups host)

  -- Hosts that are found unsafe are of the batch.
  pub check_sla-within :
      (functions : GroupingFunctions) (s : Scheduler K) (grouping : String) (limit : JobUpTimeLimit)
      (clock : ℕ) (group : String → String) (batch unsafe : List String) (host : String)
      → get_grouping_or_die functions grouping ≡ some group
      → check_sla functions s grouping limit clock batch ≡ some unsafe
      → member host unsafe ≡ true
      → member host batch ≡ true
  unfolding check_sla probe_hosts iter_groups group_hosts domain_vector get_domain_uptime_vector
      init
  check_sla-within functions s grouping limit clock group batch unsafe host known checked h =
      let v = domain_vector s clock batch in
      let is_le : String × List String → String × List String → Bool = λ a b. string_leb a.0 b.0 in
      let ordered = sort_by is_le (group_all group [] batch) in
      let groups : List (Group K) = map (λ g. (g.1, job_keys v [] g.1 [])) ordered in
      ground (
        arith,
        known,
        member-to_set batch host,
        unsafe_within v limit groups host,
        count_groups v ordered host,
        groups_once group batch is_le host,
      )

module _ {K : Type 0} where
  -- The scheduler reports the status of no host that it is not asked for.
  unfoldable pub OnlyAsked : Scheduler K → Type 0
  OnlyAsked s =
      (clock : ℕ) (asked : List String) (statuses : Statuses) (host : String)
      → s.maintenance_status clock asked ≡ some statuses
      → member host (map (λ status. status.0) statuses) ≡ true
      → member host asked ≡ true

kept_names :
    (p : String × MaintenanceMode → Bool) (statuses : Statuses) (host : String)
    → member host (map (λ status. status.0) (keep_if p statuses)) ≡ true
    → member host (map (λ status. status.0) statuses) ≡ true
unfolding member
kept_names p [] host h = h
kept_names p (status ∷ statuses) host h = ground (arith, kept_names p statuses host)

reported :
    (statuses : Statuses) (host : String)
    → member host (not_drained statuses) ≡ true
    → member host (map (λ status. status.0) statuses) ≡ true
unfolding not_drained
reported statuses host h =
    kept_names (λ status. not (is_drained status.1)) statuses host
      (ground (
        arith,
        member-to_set
            (map (λ status. status.0) (keep_if (λ status. not (is_drained status.1)) statuses))
            host,
      ))

module _ {K : Type 0} where
  wait_within :
      (s : Scheduler K) (fuel clock total : ℕ) (hostnames : List String) (last : ℕ)
      (left : List String) (host : String)
      → OnlyAsked s
      → wait_drained s fuel clock total hostnames ≡ ok (last, left)
      → member host left ≡ true
      → member host hostnames ≡ true
  unfolding wait_drained OnlyAsked
  wait_within s zero clock total hostnames last left host only h m = cc
  wait_within s (suc fuel) clock total hostnames last left host only h m =
      elim (Option-cases (s.maintenance_status clock hostnames)) [
        | inl lost ↦ ground (arith, lost)
        | inr (statuses, answered) ↦ ground (
          arith,
          answered,
          only clock hostnames statuses host answered,
          reported statuses host,
          wait_within s fuel (suc clock) (total + 5) (not_drained statuses) last left host only,
        )
      ]

  pub drain-within :
      (s : Scheduler K) (clock : ℕ) (hostnames : List String) (last : ℕ) (left : List String)
      (host : String)
      → OnlyAsked s
      → drain s clock hostnames ≡ ok (last, left)
      → member host left ≡ true
      → member host hostnames ≡ true
  unfolding drain
  drain-within s clock hostnames last left host only h m = ground (
    arith,
    member-to_set hostnames host,
    wait_within s 61 clock 5 (to_set hostnames) last left host only,
  )
