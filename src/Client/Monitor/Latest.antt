-- ===== src/Client/Monitor/Latest.antt =====
-- Which task gives an instance its state.
use aurora_client.Base.{
  ℕ, ◌≡◌, ap, ◌∙◌, Option, none, some, List, [], ◌∷◌, if◌then◌else◌, ltb, arith, ◌==◌, ==_iff,
  nat_eq, Option-cases, inl, inr,
}
use mathlib.Core.Option
use aurora_client.Base.Dicts.{Dict, get, put, get-put, get-map_values}
use aurora_client.Client.Monitor.{MonitoredTask, Stamped, collect, states}

-- Of two stamped states the one with the greater timestamp, the first if they are equal.
abbrev pub youngest : Option Stamped → Option Stamped → Option Stamped
youngest none b = b
youngest (some a) none = some a
youngest (some a) (some b) = if ltb a.0 b.0 then some b else some a

-- The status of the task of an instance with the greatest timestamp, of the first of those.
unfoldable pub latest : ℕ → List MonitoredTask → Option Stamped
latest k [] = none
latest k (t ∷ ts) =
    if t.instance_id == k
    then youngest (some (t.first_timestamp, t.status)) (latest k ts)
    else latest k ts

collect-latest :
    (ts : List MonitoredTask) (d : Dict ℕ Stamped) (k : ℕ)
    → get (collect d ts) k ≡ youngest (get d k) (latest k ts)
unfolding collect latest
collect-latest [] d k = elim (Option-cases (get d k)) [
  | inl e ↦ ground arith
  | inr (known, e) ↦ ground arith
]
collect-latest (t ∷ ts) d k =
    let stamped : Stamped = (t.first_timestamp, t.status) in
    elim (Option-cases (get d t.instance_id)) [
      | inl e ↦ elim (Option-cases (latest k ts)) [
        | inl l ↦ ground (
          arith,
          collect-latest ts (put d t.instance_id stamped) k,
          get-put d t.instance_id stamped k,
          ==_iff t.instance_id k,
        )
        | inr (b, l) ↦ ground (
          arith,
          collect-latest ts (put d t.instance_id stamped) k,
          get-put d t.instance_id stamped k,
          ==_iff t.instance_id k,
        )
      ]
      | inr (a, e) ↦ elim (Option-cases (latest k ts)) [
        | inl l ↦ ground (
          arith,
          collect-latest ts (put d t.instance_id stamped) k,
          collect-latest ts d k,
          get-put d t.instance_id stamped k,
          ==_iff t.instance_id k,
        )
        | inr (b, l) ↦ ground (
          arith,
          collect-latest ts (put d t.instance_id stamped) k,
          collect-latest ts d k,
          get-put d t.instance_id stamped k,
          ==_iff t.instance_id k,
        )
      ]
    ]

-- The state of an instance is the status of its task with the greatest first timestamp, of the
-- first of those in the answer; an instance without a task has no state.
pub get-states :
    (tasks : List MonitoredTask) (k : ℕ)
    → get (states tasks) k ≡ Option.map (λ known. known.1) (latest k tasks)
unfolding states get
get-states tasks k =
    get-map_values (λ known. known.1) (collect [] tasks) k
    ∙ ap (Option.map (λ known. known.1)) (collect-latest tasks [] k)
