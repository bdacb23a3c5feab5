-- ===== src/Admin/Maintenance/Waiting.antt =====
-- src/main/python/apache/aurora/admin/host_maintenance.py: the loop of `_drain_hosts` ends.
use aurora_client.Base.{
  ℕ, zero, suc, ◌+◌, ◌-◌, ◌*◌, ◌≤◌, String, ◌≡◌, ◌≢◌, Bool, true, false, List, [], ◌∷◌, string_eq,
  is_nil, leb, arith, Result, ok, err, inl, inr, Bool-cases, Option-cases, ◌⊎◌, Eq, Result-cases,
}
use aurora_client.Base.Sets.{to_set, minus}
use aurora_client.Client.Grouping.{GroupingFunctions}
use aurora_client.Client.Sla.Domain.{JobUpTimeLimit}
use aurora_client.Admin.Maintenance.{
  Scheduler, Stop, Progress, exited, out_of_fuel, not_drained, wait_drained, drain, drain_batch,
  maintain_batch, maintain_batches, check_sla, iter_batches, perform_maintenance,
}

-- Whether a loop has ended, after polls up to a last one.
unfoldable pub ends : ℕ → Result Stop (ℕ × List String) → Bool
ends last (ok (clock, left)) = leb clock last
ends last (err exited) = true
ends last (err out_of_fuel) = false

module _ {K : Type 0} where
  wait_nothing :
      (s : Scheduler K) (fuel clock total last : ℕ) (hostnames : List String)
      → is_nil hostnames ≡ true
      → clock ≤ last
      → ends last (wait_drained s (suc fuel) clock total hostnames) ≡ true
  unfolding wait_drained ends
  wait_nothing s fuel clock total last hostnames none_left h = ground arith

  wait_ends :
      (s : Scheduler K) (fuel clock total : ℕ) (hostnames : List String)
      → total ≤ 300
      → 310 ≤ total + 5 * fuel
      → ends (clock + fuel - 1) (wait_drained s fuel clock total hostnames) ≡ true
  unfolding wait_drained ends
  wait_ends s zero clock total hostnames low high = absurd (omega arith)
  wait_ends s (suc zero) clock total hostnames low high = absurd (omega arith)
  wait_ends s (suc (suc fuel)) clock total hostnames low high =
      elim (Option-cases (s.maintenance_status clock hostnames)) [
        | inl lost ↦ ground (arith, lost)
        | inr (statuses, answered) ↦ elim (Bool-cases (leb (total + 5) 300)) [
          | inl early ↦ ground (
            arith,
            answered,
            wait_ends s (suc fuel) (suc clock) (total + 5) (not_drained statuses) (ground arith)
                (omega arith),
          )
          | inr late ↦ ground (
            arith,
            answered,
            wait_nothing s fuel (suc clock) (total + 5) (clock + suc (suc fuel) - 1)
                (not_drained statuses),
          )
        ]
      ]

-- Whatever the scheduler answers, `_drain_hosts` ends: the client exits, or the loop stops after at
-- most 60 polls.
pub drain-ends :
    {K : Type 0} (s : Scheduler K) (clock : ℕ) (hostnames : List String)
    → ends (clock + 60) (drain s clock hostnames) ≡ true
unfolding drain ends
drain-ends s clock hostnames =
    ground (arith, wait_ends s 61 clock 5 (to_set hostnames) (omega arith) (omega arith))

-- A run that fails is one in which the client exits.
module _ {K : Type 0} ⦃e : Eq K⦄ where
  drain_exits :
      (s : Scheduler K) (clock : ℕ) (hostnames : List String)
      → drain s clock hostnames ≢ err out_of_fuel
  drain_exits s clock hostnames h = unfold ends in ground (arith, drain-ends s clock hostnames, h)

  maintain_batch_exits :
      (functions : GroupingFunctions) (s : Scheduler K) (grouping : String) (limit : JobUpTimeLimit)
      (callback : Bool) (p : Progress) (hosts : List String)
      → maintain_batch functions s grouping limit callback p hosts ≢ err out_of_fuel
  unfolding maintain_batch drain_batch
  maintain_batch_exits functions s grouping limit callback p hosts h =
      elim (Option-cases (check_sla functions s grouping limit p.clock hosts)) [
        | inl died ↦ ground (arith, died)
        | inr (unsafe, checked) ↦ ground (
          arith,
          checked,
          drain_exits s p.clock hosts,
          drain_exits s p.clock (minus hosts unsafe),
        )
      ]

  maintain_batches_exit :
      (functions : GroupingFunctions) (s : Scheduler K) (grouping : String) (limit : JobUpTimeLimit)
      (callback : Bool) (p : Progress) (batches : List (List String))
      → maintain_batches functions s grouping limit callback p batches ≢ err out_of_fuel
  unfolding maintain_batches
  maintain_batches_exit functions s grouping limit callback p [] h = cc
  maintain_batches_exit functions s grouping limit callback p (batch ∷ batches) h =
      elim (Result-cases (maintain_batch functions s grouping limit callback p batch)) [
        | inl (p', stepped) ↦
            ground
              (arith, stepped, maintain_batches_exit functions s grouping limit callback p' batches)
        | inr (stop, stopped) ↦
            ground
              (arith, stopped, maintain_batch_exits functions s grouping limit callback p batch)
      ]

-- Whatever the scheduler answers, `perform_maintenance` comes to an end: it gives its result or the
-- client exits, and no wait for hosts goes on for more polls than its bound.
pub perform_maintenance_ends :
    {K : Type 0} ⦃e : Eq K⦄ (functions : GroupingFunctions) (s : Scheduler K)
    (hostnames : List String) (grouping : String) (limit : JobUpTimeLimit) (callback : Bool)
    → (perform_maintenance functions s hostnames grouping limit callback ≡ err exited)
      ⊎ ((result : List String × Progress) × (perform_maintenance functions s hostnames grouping
              limit callback
            ≡ ok result))
unfolding perform_maintenance
perform_maintenance_ends functions s hostnames grouping limit callback =
    elim (Option-cases (s.start_maintenance hostnames)) [
      | inl refused ↦ inl (ground (arith, refused))
      | inr (known, started) ↦ elim (Option-cases (iter_batches functions known grouping)) [
        | inl died ↦ inl (ground (arith, started, died))
        | inr (batches, batched) ↦
            let start : Progress = record { clock = 0; left = []; operated = [] } in
            elim (Result-cases
              (maintain_batches functions s grouping limit callback start batches)) [
                | inl (p, ended) ↦
                    inr ((minus (to_set known) p.left, p), ground (arith, started, batched, ended))
                | inr (stop, stopped) ↦ inl (
                    ground (
                      arith,
                      started,
                      batched,
                      stopped,
                      maintain_batches_exit functions s grouping limit callback start batches,
                    ))
              ]
      ]
    ]
