-- ===== src/Client/Sla/Uptime.antt =====
-- src/main/python/apache/aurora/client/api/sla.py: `get_job_uptime` against `get_task_up_count`.
use aurora_client.Base.{ℕ, suc, ◌-◌, ◌*◌, ◌≤◌, ◌<◌, ◌≡◌, none, length, arith, ok, true}
use aurora_client.Base.Int.{ℤ, leb_ℤ}
use aurora_client.Base.Dicts.{Dict}
use aurora_client.Base.Sorting.{get_elem?_lt, sort_by, length-sort_by}
use aurora_client.Client.Sla.{values, at_least, or_length, get_task_up_count, get_job_uptime}
use aurora_client.Client.Sla.Rank.{rank}
use aurora_client.Client.Sla.WaitTime.{length-values}

-- Let the product of floats be below the number of instances and at most one below the exact share.
-- Of a job with instances `get_job_uptime` gives for every percentile between 0 and 100 an uptime,
-- and `get_task_up_count` says that at least that percentile of the instances has been up for it.
pub get_job_uptime-at_least :
    (scaled : ℕ → ℕ → ℕ)
    (below : (percentile total : ℕ)
      → percentile < 100
      → 0 < total
      → scaled percentile total < total)
    (near : (percentile total : ℕ) → percentile * total ≤ 100 * suc (scaled percentile total))
    (uptimes : Dict ℕ ℤ) (percentile : ℕ)
    → 0 < percentile
    → percentile < 100
    → 0 < length uptimes
    → (up : ℤ) × (get_job_uptime scaled uptimes percentile ≡ ok up)
      × (at_least (get_task_up_count uptimes up none) percentile ≡ true)
unfolding get_job_uptime get_task_up_count at_least or_length
get_job_uptime-at_least scaled below near uptimes percentile low high there =
    let total = length uptimes in
    let value = scaled percentile total in
    let small = below percentile total high there in
    let same = length-sort_by leb_ℤ (values uptimes) in
    let (up, found) =
      get_elem?_lt (sort_by leb_ℤ (values uptimes)) (total - value - 1)
        (ground (arith, same, length-values uptimes)) in
    (
      up,
      ground (arith, found),
      ground (
        arith,
        near percentile total,
        length-values uptimes,
        rank up (values uptimes) (total - value - 1) up found,
      ),
    )
