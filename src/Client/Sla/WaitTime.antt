-- ===== src/Client/Sla/WaitTime.antt =====
-- src/main/python/apache/aurora/client/api/sla.py: `get_wait_time_to_sla` against the uptimes that
-- the same tasks have later.
use aurora_client.Base.{
  ℕ, ◌-◌, ◌*◌, ◌≤◌, ◌<◌, ◌≡◌, refl, Bool, false, Option, none, some, List, [], ◌∷◌, length, leb,
  ltb, arith, inl, inr, Bool-cases, Option-cases, nat_eq,
}
use aurora_client.Base.Int.{ℤ, pos, negsuc, ◌+ℤ◌, ◌-ℤ◌, leb_ℤ, int_laws, +ℤ_parts, -ℤ_parts}
use aurora_client.Base.Dicts.{Dict, map_values, map_values-put}
use aurora_client.Base.Sorting.{
  count_if, count_if_le, count_if_mono, get_elem?_lt, sort_by, length-sort_by,
}
use aurora_client.Client.Sla.{
  TaskEvent, SlaTask, floor_div, ceil_div, uptime, first_running, values, at_least, or_length,
  get_task_up_count, get_wait_time_to_sla, put_uptime, put_uptimes, instance_uptime,
}
use aurora_client.Client.Sla.Rank.{rank}

floor_div_lem : (a : ℤ) (w : ℕ) → floor_div (a +ℤ pos (1000 * w)) 1000 ≡ floor_div a 1000 +ℤ pos w
unfolding floor_div ◌+ℤ◌
floor_div_lem (pos n) w = ground arith
floor_div_lem (negsuc n) w = ground arith

shift : (a t : ℤ) (n : ℕ) → (a +ℤ pos n) -ℤ t ≡ (a -ℤ t) +ℤ pos n
shift a t n = grind int_laws

uptime_later :
    (now : ℤ) (w : ℕ) (event : TaskEvent)
    → uptime (now +ℤ pos (1000 * w)) event ≡ uptime now event +ℤ pos w
unfolding uptime
uptime_later now w event =
    rw (shift now event.timestamp (1000 * w)) (floor_div_lem (now -ℤ event.timestamp) w)

-- The uptimes, w seconds longer.
abbrev longer : ℕ → Dict ℕ ℤ → Dict ℕ ℤ
longer w uptimes = map_values (λ up. up +ℤ pos w) uptimes

module _ {K : Type 0} where
  put_uptime_later :
      (now : ℤ) (w : ℕ) (uptimes : Dict ℕ ℤ) (task : SlaTask K)
      → put_uptime (now +ℤ pos (1000 * w)) (longer w uptimes) task
        ≡ longer w (put_uptime now uptimes task)
  unfolding put_uptime
  put_uptime_later now w uptimes task = elim (Option-cases (first_running task.task_events)) [
    | inl never ↦ ground (arith, never)
    | inr (event, found) ↦ ground (
      arith,
      found,
      uptime_later now w event,
      map_values-put (λ up. up +ℤ pos w) uptimes task.instance_id (uptime now event),
    )
  ]

  put_uptimes_later :
      (now : ℤ) (w : ℕ) (uptimes : Dict ℕ ℤ) (tasks : List (SlaTask K))
      → put_uptimes (now +ℤ pos (1000 * w)) (longer w uptimes) tasks
        ≡ longer w (put_uptimes now uptimes tasks)
  unfolding put_uptimes
  put_uptimes_later now w uptimes [] = refl
  put_uptimes_later now w uptimes (task ∷ tasks) =
      rw (put_uptime_later now w uptimes task)
        (put_uptimes_later now w (put_uptime now uptimes task) tasks)

  instance_uptime_later :
      (now : ℤ) (w : ℕ) (tasks : List (SlaTask K))
      → instance_uptime (now +ℤ pos (1000 * w)) tasks ≡ longer w (instance_uptime now tasks)
  unfolding instance_uptime map_values
  instance_uptime_later now w tasks = put_uptimes_later now w [] tasks

pub length-values : (uptimes : Dict ℕ ℤ) → length (values uptimes) ≡ length uptimes
unfolding values
length-values [] = refl
length-values (entry ∷ uptimes) = ground (arith, length-values uptimes)

length-longer : (w : ℕ) (uptimes : Dict ℕ ℤ) → length (longer w uptimes) ≡ length uptimes
unfolding map_values
length-longer w [] = refl
length-longer w (entry ∷ uptimes) = ground (arith, length-longer w uptimes)

-- An instance is up for long enough later when it is up for so much less now.
reach_later : (c u : ℤ) (w : ℕ) → leb_ℤ c (u +ℤ pos w) ≡ leb_ℤ (c -ℤ pos w) u
reach_later c u w = ground (arith, +ℤ_parts u (pos w), -ℤ_parts c (pos w))

count_later :
    (duration : ℤ) (w : ℕ) (uptimes : Dict ℕ ℤ)
    → count_if (λ up. leb_ℤ duration up) (values (longer w uptimes))
      ≡ count_if (λ up. leb_ℤ (duration -ℤ pos w) up) (values uptimes)
unfolding values map_values count_if
count_later duration w [] = refl
count_later duration w ((i, up) ∷ uptimes) =
    ground (arith, reach_later duration up w, count_later duration w uptimes)

-- The percentile is reached when the target count is.
reached :
    (percentile total part : ℕ)
    → 0 < total
    → leb (percentile * total) (100 * part) ≡ leb (ceil_div (total * percentile) 100) part
reached percentile total part h = ground arith

-- Whether a wait is over after w seconds.
unfoldable pub is_over : Option ℤ → ℕ → Bool
is_over none w = false
is_over (some wait) w = leb_ℤ wait (pos w)

or_length-longer :
    (total_tasks : Option ℕ) (w : ℕ) (uptimes : Dict ℕ ℤ)
    → or_length total_tasks (longer w uptimes) ≡ or_length total_tasks uptimes
unfolding or_length
or_length-longer none w uptimes = length-longer w uptimes
or_length-longer (some total) w uptimes = ground (arith, length-longer w uptimes)

-- `get_task_up_count` compared with a percentile, by the target count.
at_least_iff :
    (uptimes : Dict ℕ ℤ) (percentile : ℕ) (duration : ℤ) (total_tasks : Option ℕ)
    → 0 < or_length total_tasks uptimes
    → at_least (get_task_up_count uptimes duration total_tasks) percentile
      ≡ leb
          (ceil_div (or_length total_tasks uptimes * percentile) 100)
          (count_if (λ up. leb_ℤ duration up) (values uptimes))
unfolding at_least get_task_up_count
at_least_iff uptimes percentile duration total_tasks h = ground (
  arith,
  reached percentile (or_length total_tasks uptimes)
      (count_if (λ up. leb_ℤ duration up) (values uptimes)) h,
)

wait_over : (c x : ℤ) (w : ℕ) → leb_ℤ (c -ℤ pos w) x ≡ leb_ℤ (c -ℤ x) (pos w)
wait_over c x w = ground (arith, -ℤ_parts c (pos w), -ℤ_parts c x)

count_grows :
    (c : ℤ) (w : ℕ) (ups : List ℤ)
    → count_if (λ up. leb_ℤ c up) ups ≤ count_if (λ up. leb_ℤ (c -ℤ pos w) up) ups
count_grows c w ups =
    count_if_mono (λ up. leb_ℤ c up) (λ up. leb_ℤ (c -ℤ pos w) up) ups
      λ up h. ground (arith, -ℤ_parts c (pos w))

-- Without tasks no percentile but 0 is reached.
at_least_nothing :
    (uptimes : Dict ℕ ℤ) (percentile : ℕ) (duration : ℤ) (total_tasks : Option ℕ)
    → or_length total_tasks uptimes ≡ 0
    → at_least (get_task_up_count uptimes duration total_tasks) percentile ≡ leb percentile 0
unfolding at_least get_task_up_count
at_least_nothing uptimes percentile duration total_tasks h = ground arith

length-nothing :
    (total_tasks : Option ℕ) (uptimes : Dict ℕ ℤ)
    → or_length total_tasks uptimes ≡ 0
    → length uptimes ≡ 0
unfolding or_length
length-nothing none uptimes h = h
length-nothing (some total) uptimes h = ground arith

exact :
    (uptimes : Dict ℕ ℤ) (percentile : ℕ) (duration : ℤ) (total_tasks : Option ℕ) (w : ℕ)
    → at_least (get_task_up_count (longer w uptimes) duration total_tasks) percentile
      ≡ is_over (get_wait_time_to_sla uptimes percentile duration total_tasks) w
unfolding get_wait_time_to_sla is_over
exact uptimes percentile duration total_tasks w =
    let total = or_length total_tasks uptimes in
    let target = ceil_div (total * percentile) 100 in
    let ups = values uptimes in
    let same_total = or_length-longer total_tasks w uptimes in
    elim (Bool-cases (leb total 0)) [
      | inl nothing ↦ ground (
        arith,
        same_total,
        length-nothing total_tasks uptimes (ground arith),
        at_least_nothing uptimes percentile duration total_tasks (ground arith),
        at_least_nothing (longer w uptimes) percentile duration total_tasks
            (ground (arith, same_total)),
      )
      | inr some_tasks ↦
          let now = at_least_iff uptimes percentile duration total_tasks (ground arith) in
          let later =
            at_least_iff (longer w uptimes) percentile duration total_tasks
              (ground (arith, same_total)) in
          let counted = count_later duration w uptimes in
          elim (Bool-cases (leb target (count_if (λ up. leb_ℤ duration up) ups))) [
            | inl enough ↦
                ground (arith, now, later, same_total, counted, count_grows duration w ups)
            | inr short ↦ elim (Bool-cases (ltb (length uptimes) target)) [
              | inl missing ↦ ground (
                arith,
                now,
                later,
                same_total,
                count_if_le (λ up. leb_ℤ duration up) (values (longer w uptimes)),
                length-values (longer w uptimes),
                length-longer w uptimes,
              )
              | inr there ↦
                  let (x, found) =
                    get_elem?_lt (sort_by leb_ℤ ups) (length uptimes - target)
                      (ground (arith, length-sort_by leb_ℤ ups, length-values uptimes)) in
                  ground (
                    arith,
                    now,
                    later,
                    same_total,
                    found,
                    counted,
                    length-values uptimes,
                    rank (duration -ℤ pos w) ups (length uptimes - target) x found,
                    wait_over duration x w,
                  )
            ]
          ]
    ]

-- Let no event happen to the tasks of a job. `get_wait_time_to_sla` answers exactly: w whole
-- seconds later the job has its percentile of instances up for the duration (of the total given,
-- or of those that have run) if and only if the answer is a wait of at most w seconds; where the
-- answer is None it never has, and where it is 0 it has it now.
pub wait_time_exact :
    {K : Type 0} (now : ℤ) (tasks : List (SlaTask K)) (percentile : ℕ) (duration : ℤ)
    (total_tasks : Option ℕ) (w : ℕ)
    → at_least
        (get_task_up_count (instance_uptime (now +ℤ pos (1000 * w)) tasks) duration total_tasks)
        percentile
      ≡ is_over (get_wait_time_to_sla (instance_uptime now tasks) percentile duration total_tasks) w
wait_time_exact now tasks percentile duration total_tasks w =
    rw (instance_uptime_later now w tasks)
      (exact (instance_uptime now tasks) percentile duration total_tasks w)
