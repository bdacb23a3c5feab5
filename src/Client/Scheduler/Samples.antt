-- ===== src/Client/Scheduler/Samples.antt =====
-- Some turns of a call on which the theorems of the scheduler client are run.
use aurora_client.Base.{
  ℕ, zero, suc, ◌≤◌, ◌≡◌, refl, true, false, List, [], ◌∷◌, length, all, get_last?, some,
  if◌then◌else◌, ltb,
}
use aurora_client.Client.Scheduler.{
  Turn, Reply, responded, transient, transport_error, type_error, returned, Attempt, sent,
  connected, refill, invoke, attempt, unless_terminating, after, call, construct_scheduler,
}
use aurora_client.Client.Scheduler.Retry.{
  may_repeat, before_last, invoked, verdict, is_final, call_once, call-verdict,
}
use aurora_client.Client.Scheduler.Patience.{call_patience}

abbrev turn : (ℕ → Reply) → Turn
turn reply = record {
  connecting = (0, connected) ∷ [];
  reply = reply;
  spent = 0;
  set_meanwhile = false;
  set_waiting = false;
}

-- The second invocation, too, lacks an argument; the third does not.
abbrev two_missing : ℕ → Reply
two_missing i = if ltb i 2 then type_error else responded 1

-- The scheduler is not ready at first.
abbrev turns : List Turn
turns = turn (λ i. transient) ∷ turn two_missing ∷ []

answered :
    call false 1 false false 0 turns
    ≡ (returned 1, sent [] transient ∷ sent (type_error ∷ type_error ∷ []) (responded 1) ∷ [])
unfolding call attempt invoke refill construct_scheduler after unless_terminating
answered = refl

call_once_example :
    all may_repeat (before_last (invoked (call false 1 false false 0 turns).1)) ≡ true
call_once_example = call_once 1 false false 0 turns

responds : is_final (call false 1 false false 0 turns).0 ≡ true
unfolding call attempt invoke refill construct_scheduler after unless_terminating is_final
responds = refl

call-verdict_example :
    (made : Attempt) × (get_last? (call false 1 false false 0 turns).1 ≡ some made)
    × (verdict false made ≡ (call false 1 false false 0 turns).0)
call-verdict_example = call-verdict false 1 false false 0 turns responds

abbrev repeat : ℕ → List Turn
repeat zero = []
repeat (suc n) = turn (λ i. transport_error) ∷ repeat n

-- A scheduler that is never reached.
call_patience_example : length (call true 0 false false 0 (repeat 121)).1 ≤ 120
call_patience_example = call_patience true 0 false false (repeat 121)
