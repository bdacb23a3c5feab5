-- ===== src/Client/Scheduler/Patience.antt =====
-- src/main/python/apache/aurora/client/api/scheduler_client.py: how long a call is tried.
use aurora_client.Base.{
  ℕ, ◌+◌, ◌-◌, ◌*◌, ◌≤◌, ◌<◌, ◌≡◌, ◌≢◌, refl, Bool, true, false, ◌||◌, List, [], ◌∷◌, length, arith,
  inl, inr,
}
use aurora_client.Client.Scheduler.{
  Turn, Outcome, unfinished, Attempt, ends_with, attempt, after, call, unless_terminating, sent,
  not_connected, not_constructed, responded, transient, transport_error, auth_error, type_error,
  other_error,
}
use aurora_client.Client.Scheduler.Retry.{Next-cases, looks_terminating}

ends-finished :
    (retry : Bool) (turn : Turn) (made : Attempt) (outcome : Outcome)
    → after retry turn made ≡ ends_with outcome
    → outcome ≢ unfinished
unfolding after unless_terminating
ends-finished retry turn (sent earlier (responded code)) outcome h o = ground arith
ends-finished retry turn (sent earlier auth_error) outcome h o = ground arith
ends-finished retry turn (sent earlier transport_error) outcome h o = ground arith
ends-finished retry turn (sent earlier transient) outcome h o = ground arith
ends-finished retry turn (sent earlier type_error) outcome h o = ground arith
ends-finished retry turn (sent earlier other_error) outcome h o = ground arith
ends-finished retry turn not_connected outcome h o = ground arith
ends-finished retry turn not_constructed outcome h o = ground arith

attempts_within :
    (retry : Bool) (missing : ℕ) (client set : Bool) (clock : ℕ) (turns : List Turn)
    → 5 * length (call retry missing client set clock turns).1 ≤ 604 - clock
unfolding call
attempts_within retry missing client true clock turns = omega arith
attempts_within retry missing client false clock [] = omega arith
attempts_within retry missing client false clock (turn ∷ turns) =
    let made = attempt missing client turn in
    let set = turn.set_meanwhile || turn.set_waiting in
    let rest = attempts_within retry missing false set (clock + turn.spent + 5) turns in
    elim (Next-cases (after retry turn made)) [
      | inl (outcome, ended) ↦ ground (arith, ended)
      | inr (inl again) ↦ ground (arith, again, rest)
      | inr (inr looks) ↦ ground (arith, looks, rest, looks_terminating retry turn made looks)
    ]

-- A call makes at most 120 attempts, whatever the scheduler answers and however little time each takes:
-- it waits 5 seconds between two of them and begins none after 600.
pub call_patience :
    (retry : Bool) (missing : ℕ) (client set : Bool) (turns : List Turn)
    → length (call retry missing client set 0 turns).1 ≤ 120
call_patience retry missing client set turns =
    omega (arith, attempts_within retry missing client set 0 turns)

-- An unfinished call has made an attempt in every turn.
unfinished_turns :
    (retry : Bool) (missing : ℕ) (client set : Bool) (clock : ℕ) (turns : List Turn)
    → (call retry missing client set clock turns).0 ≡ unfinished
    → length (call retry missing client set clock turns).1 ≡ length turns
unfolding call
unfinished_turns retry missing client true clock turns h = cc
unfinished_turns retry missing client false clock [] h = refl
unfinished_turns retry missing client false clock (turn ∷ turns) h =
    let made = attempt missing client turn in
    let set = turn.set_meanwhile || turn.set_waiting in
    let rest = unfinished_turns retry missing false set (clock + turn.spent + 5) turns in
    elim (Next-cases (after retry turn made)) [
      | inl (outcome, ended) ↦
          absurd (ground (arith, ended, ends-finished retry turn made outcome ended))
      | inr (inl again) ↦ ground (arith, again, rest)
      | inr (inr looks) ↦ ground (arith, looks, rest)
    ]

-- A call has come to its end within 121 turns of its loop.
pub call_finishes :
    (retry : Bool) (missing : ℕ) (client set : Bool) (turns : List Turn)
    → 120 < length turns
    → (call retry missing client set 0 turns).0 ≢ unfinished
call_finishes retry missing client set turns long open_ended = omega (
  arith,
  call_patience retry missing client set turns,
  unfinished_turns retry missing client set 0 turns open_ended,
)
