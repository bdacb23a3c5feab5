-- ===== src/Admin/Maintenance/Operated.antt =====
-- src/main/python/apache/aurora/admin/host_maintenance.py: the hosts that `perform_maintenance` gives
-- back, and those that its callback is called for.
use aurora_client.Base.{
  String, ◌≡◌, subst, Bool, true, false, not, ◌&&◌, ◌||◌, some, List, [], ◌∷◌, string_eq, Eq,
  if◌then◌else◌, arith, is_nil, inl, inr, Option-cases, Bool-cases, ok, Result-cases,
}
use aurora_client.Base.Sets.{
  member, to_set, union, minus, member-minus, member-append, member-union, member-to_set,
  is_nil-minus, is_subset-member,
}
use aurora_client.Base.Sorting.{count_if}
use aurora_client.Client.Grouping.{GroupingFunctions, get_grouping_or_die}
use aurora_client.Client.Sla.Domain.{JobUpTimeLimit}
use aurora_client.Admin.Maintenance.{
  Scheduler, Progress, drain, drain_batch, maintain_batch, maintain_batches, check_sla,
  perform_maintenance,
}
use aurora_client.Admin.Maintenance.Groups.{iter_batches_partition}
use aurora_client.Admin.Maintenance.Within.{OnlyAsked, drain-within, check_sla-within}

-- What a step does to one host, of which `inside` says whether the step is about it: it is operated on
-- where it is not left, and nothing is done to a host outside.
unfoldable Steps : Bool → String → Progress → Progress → Type 0
Steps inside host p p' =
    (member host p'.operated ≡ (member host p.operated || (inside && not (member host p'.left))))
    × (member host p.left ≡ true → member host p'.left ≡ true)
    × (inside ≡ false → member host p'.left ≡ true → member host p.left ≡ true)

unsafe_first :
    (p p' : Progress) (hosts unsafe : List String) (host : String)
    → (member host unsafe ≡ true → member host hosts ≡ true)
    → Steps (member host (minus hosts unsafe)) host (record p { left = union p.left unsafe }) p'
    → Steps (member host hosts) host p p'
unfolding Steps
unsafe_first p p' hosts unsafe host within (operated, grows, outside) =
    let joined = member-union p.left unsafe host in
    let parted = member-minus hosts unsafe host in
    (
      ground (arith, joined, parted),
      λ m. ground (arith, joined),
      λ o m. ground (arith, joined, parted),
    )

all_unsafe :
    (p p' : Progress) (hosts unsafe : List String) (host : String)
    → (member host unsafe ≡ true → member host hosts ≡ true)
    → is_nil (minus hosts unsafe) ≡ true
    → p'.left ≡ union p.left unsafe
    → p'.operated ≡ p.operated
    → Steps (member host hosts) host p p'
unfolding Steps
all_unsafe p p' hosts unsafe host within none_safe left operated =
    let joined = member-union p.left unsafe host in
    let covered = is_subset-member hosts unsafe host in
    let subset = is_nil-minus hosts unsafe in
    (
      ground (arith, joined, covered, subset, left, operated),
      λ m. ground (arith, joined, left),
      λ o m. ground (arith, joined, left),
    )

then-Steps :
    (a b : Bool) (host : String) (p p' p'' : Progress)
    → (a && b) ≡ false
    → Steps a host p p'
    → Steps b host p' p''
    → Steps (a || b) host p p''
unfolding Steps
then-Steps a b host p p' p'' apart (o1, g1, f1) (o2, g2, f2) =
    (ground arith, λ m. ground arith, λ o m. ground arith)

module _ {K : Type 0} ⦃e : Eq K⦄ where
  drain_batch-Steps :
      (s : Scheduler K) (p p' : Progress) (hosts : List String) (host : String)
      → OnlyAsked s
      → drain_batch s true p hosts ≡ ok p'
      → Steps (member host hosts) host p p'
  unfolding drain_batch Steps
  drain_batch-Steps s p p' hosts host only h = elim (Result-cases (drain s p.clock hosts)) [
    | inl ((last, left), drained) ↦
        let all_left = union p.left left in
        let inside = drain-within s p.clock hosts last left host only drained in
        (
          ground (
            arith,
            drained,
            member-append p.operated (minus hosts all_left) host,
            member-minus hosts all_left host,
          ),
          λ m. ground (arith, drained, member-union p.left left host),
          λ o m. ground (arith, drained, member-union p.left left host, inside),
        )
    | inr (stop, stopped) ↦ absurd (ground (arith, stopped))
  ]

  maintain_batch-Steps :
      (functions : GroupingFunctions) (s : Scheduler K) (grouping : String) (limit : JobUpTimeLimit)
      (group : String → String) (p p' : Progress) (hosts : List String) (host : String)
      → OnlyAsked s
      → get_grouping_or_die functions grouping ≡ some group
      → maintain_batch functions s grouping limit true p hosts ≡ ok p'
      → Steps (member host hosts) host p p'
  unfolding maintain_batch
  maintain_batch-Steps functions s grouping limit group p p' hosts host only known h =
      elim (Option-cases (check_sla functions s grouping limit p.clock hosts)) [
        | inl died ↦ absurd (ground (arith, died))
        | inr (unsafe, checked) ↦ elim (Bool-cases (is_nil unsafe)) [
          | inl all_safe ↦ drain_batch-Steps s p p' hosts host only (ground (arith, checked))
          | inr some_unsafe ↦
              let p1 = record p { left = union p.left unsafe } in
              let within =
                check_sla-within functions s grouping limit p.clock group hosts unsafe host known
                  checked in
              elim (Bool-cases (is_nil (minus hosts unsafe))) [
                | inl none_safe ↦
                    all_unsafe p p' hosts unsafe host within none_safe (ground (arith, checked))
                      (ground (arith, checked))
                | inr rest ↦ unsafe_first p p' hosts unsafe host within (
                    drain_batch-Steps s p1 p' (minus hosts unsafe) host only
                      (ground (arith, checked)))
              ]
        ]
      ]

  maintain_batches-Steps :
      (functions : GroupingFunctions) (s : Scheduler K) (grouping : String) (limit : JobUpTimeLimit)
      (group : String → String) (p p' : Progress) (batches : List (List String)) (host : String)
      (inside : Bool)
      → OnlyAsked s
      → get_grouping_or_die functions grouping ≡ some group
      → count_if (member host) batches ≡ (if inside then 1 else 0)
      → maintain_batches functions s grouping limit true p batches ≡ ok p'
      → Steps inside host p p'
  unfolding maintain_batches count_if Steps
  maintain_batches-Steps functions s grouping limit group p p' [] host inside only known once h =
      (ground arith, λ m. ground arith, λ o m. ground arith)
  maintain_batches-Steps functions s grouping limit group p p' (batch ∷ batches) host inside only
        known once h =
      elim (Result-cases (maintain_batch functions s grouping limit true p batch)) [
        | inr (stop, stopped) ↦ absurd (ground (arith, stopped))
        | inl (p1, stepped) ↦
            let there = member host batch in
            let later = inside && not there in
            subst (λ b. Steps b host p p') (ground arith)
              (then-Steps there later host p p1 p' (ground arith)
                (maintain_batch-Steps functions s grouping limit group p p1 batch host only known
                  stepped)
                (maintain_batches-Steps functions s grouping limit group p1 p' batches host later
                  only known (ground arith) (ground (arith, stepped))))
      ]

-- Let the scheduler report the status of no host but those it is asked for, and a known function
-- group the hosts. When `perform_maintenance` with a callback comes to its end, the callback has been
-- called for exactly the hosts that it gives back as drained.
pub perform_maintenance-operated :
    {K : Type 0} ⦃e : Eq K⦄ (functions : GroupingFunctions) (s : Scheduler K)
    (hostnames : List String) (grouping : String) (limit : JobUpTimeLimit) (group : String → String)
    (drained : List String) (p : Progress)
    → OnlyAsked s
    → get_grouping_or_die functions grouping ≡ some group
    → perform_maintenance functions s hostnames grouping limit true ≡ ok (drained, p)
    → (host : String) → member host p.operated ≡ member host drained
unfolding perform_maintenance Steps member
perform_maintenance-operated functions s hostnames grouping limit group drained p only known h
      host =
    elim (Option-cases (s.start_maintenance hostnames)) [
      | inl refused ↦ absurd (ground (arith, refused))
      | inr (found, started) ↦
          let (batches, batched, once) =
            iter_batches_partition functions found grouping group known in
          let start : Progress = record { clock = 0; left = []; operated = [] } in
          elim (Result-cases (maintain_batches functions s grouping limit true start batches)) [
            | inr (stop, stopped) ↦ absurd (ground (arith, started, batched, stopped))
            | inl (p', ended) ↦
                let (operated, _, outside) =
                  maintain_batches-Steps functions s grouping limit group start p' batches host
                    (member host found) only known (once host) ended in
                ground (
                  arith,
                  started,
                  batched,
                  ended,
                  operated,
                  outside,
                  member-minus (to_set found) p'.left host,
                  member-to_set found host,
                )
          ]
    ]
