-- ===== src/Client/Scheduler.antt =====
-- src/main/python/apache/aurora/client/api/scheduler_client.py: how a scheduler is found, and how a
-- call to it is tried again. What the network does and what the clock shows are arguments: a list of
-- what comes of each turn of a loop. Times are seconds.
pub mod Retry
pub mod Patience
mod Samples
use aurora_client.Base.{
  ℕ, zero, suc, ◌+◌, String, Bool, true, false, not, ◌&&◌, ◌||◌, Option, none, some, List, [], ◌∷◌,
  if◌then◌else◌, ltb, Result, ok, err,
}

-- What comes of trying to connect: `get_thrift_client` gives a client, cannot connect, or raises
-- anything else.
pub data Connect : Type 0 where
  connected could_not_connect other_failure : Connect

pub data Constructed : Type 0 where
  has_client timed_out auth_failed : Constructed

abbrev pub connect_maximum_wait : ℕ
connect_maximum_wait = 60

abbrev pub rpc_maximum_wait : ℕ
rpc_maximum_wait = 600

abbrev pub rpc_retry_interval : ℕ
rpc_retry_interval = 5

-- The loop of `_construct_scheduler`, over the seconds since its start; where the list ends, the wait
-- is over.
unfoldable pub construct_scheduler : List (ℕ × Connect) → Constructed
construct_scheduler [] = timed_out
construct_scheduler ((elapsed, result) ∷ results) =
    let rest = construct_scheduler results in
    if ltb elapsed connect_maximum_wait
    then elim result [
      | connected ↦ has_client
      | could_not_connect ↦ rest
      | other_failure ↦ auth_failed
    ]
    else timed_out

-- What one invocation of the method comes to: a response, by its code, or an exception of the
-- transport, of its authentication, a TypeError, or any other.
pub data Reply : Type 0 where
  responded : ℕ → Reply
  transient transport_error auth_error type_error other_error : Reply

abbrev pub is_type_error : Reply → Bool
is_type_error type_error = true
is_type_error _ = false

-- One turn of the loop of a call: what comes of connecting, should that be needed, and of the first
-- and each further invocation, the seconds that all of this takes, and whether the terminating event
-- is set meanwhile, or in the wait for the next turn.
pub record Turn : Type 0 where
  pub connecting : List (ℕ × Connect)
  pub reply : ℕ → Reply
  pub spent : ℕ
  pub set_meanwhile : Bool
  pub set_waiting : Bool

pub data Outcome : Type 0 where
  returned : ℕ → Outcome
  -- `None`, where the event is set.
  nothing : Outcome
  raised_auth raised_not_retriable raised_thrift_internal raised_timeout : Outcome
  -- The list of turns ends.
  unfinished : Outcome

-- What the body of the loop ends in: the invocations that raised a TypeError and were followed by
-- another one, and the last one; or the `except` clause that is taken before any.
pub data Attempt : Type 0 where
  sent : List Reply → Reply → Attempt
  -- TimeoutError, and any other exception before the method is invoked.
  not_connected not_constructed : Attempt

-- The loop after a TypeError, from its i-th invocation on: `None` is appended while arguments are
-- missing.
unfoldable pub refill : ℕ → (ℕ → Reply) → ℕ → List Reply × Reply
refill zero reply i = ([], reply i)
refill (suc missing) reply i =
    let (earlier, last) = refill missing reply (suc i) in
    if is_type_error (reply i) then (reply i ∷ earlier, last) else ([], reply i)

unfoldable pub invoke : ℕ → (ℕ → Reply) → List Reply × Reply
invoke missing reply =
    let (earlier, last) = refill missing reply 1 in
    if is_type_error (reply 0) then (reply 0 ∷ earlier, last) else ([], reply 0)

-- `self.client()` and the invocations of the method.
unfoldable pub attempt : ℕ → Bool → Turn → Attempt
attempt missing true turn = sent (invoke missing turn.reply).0 (invoke missing turn.reply).1
attempt missing false turn = elim (construct_scheduler turn.connecting) [
  | has_client ↦ sent (invoke missing turn.reply).0 (invoke missing turn.reply).1
  | timed_out ↦ not_connected
  | auth_failed ↦ not_constructed
]

-- How the loop goes on after an attempt: it ends, or it is tried again after an interval, or, where the
-- event is set by then, its head is looked at again.
pub data Next : Type 0 where
  ends_with : Outcome → Next
  try_again look_again : Next

unfoldable pub unless_terminating : Turn → Next → Next
unless_terminating turn next = if turn.set_meanwhile then look_again else next

unfoldable pub after : Bool → Turn → Attempt → Next
after retry turn (sent earlier (responded code)) = ends_with (returned code)
after retry turn (sent earlier auth_error) = ends_with raised_auth
after retry turn (sent earlier transport_error) =
    unless_terminating turn (if retry then try_again else ends_with raised_not_retriable)
after retry turn (sent earlier transient) = unless_terminating turn try_again
after retry turn not_connected = unless_terminating turn try_again
after retry turn (sent earlier type_error) =
    unless_terminating turn (ends_with raised_thrift_internal)
after retry turn (sent earlier other_error) =
    unless_terminating turn (ends_with raised_thrift_internal)
after retry turn not_constructed = unless_terminating turn (ends_with raised_thrift_internal)

-- `method_wrapper`, from whether the event is set and the seconds since its start: the outcome, and
-- the attempts that were made, in order. `missing` is how many parameters the method has beyond the
-- arguments. The client is there or is not; `invalidate` drops it before each retry. The event is
-- never cleared; a wait that it cuts short is followed by no look at the clock.
unfoldable pub call : Bool → ℕ → Bool → Bool → ℕ → List Turn → Outcome × List Attempt
call retry missing client true clock turns = (nothing, [])
call retry missing client false clock [] = (unfinished, [])
call retry missing client false clock (turn ∷ turns) =
    let made = attempt missing client turn in
    let (outcome, attempts) =
      call retry missing false (turn.set_meanwhile || turn.set_waiting)
        (clock + turn.spent + rpc_retry_interval) turns in
    if not (ltb clock rpc_maximum_wait)
    then (raised_timeout, [])
    else elim (after retry turn made) [
      | ends_with result ↦ (result, made ∷ [])
      | try_again ↦ (outcome, made ∷ attempts)
      | look_again ↦ (outcome, made ∷ attempts)
    ]

-- `_connect_scheduler`: opening the transport, up to five times.
pub data Opening : Type 0 where
  opened refused failed : Opening

abbrev pub thrift_retries : ℕ
thrift_retries = 5

unfoldable pub open_within : ℕ → List Opening → Bool × ℕ
open_within zero openings = (false, 0)
open_within (suc n) [] = (false, 0)
open_within (suc n) (opened ∷ openings) = (true, 1)
open_within (suc n) (failed ∷ openings) = (false, 1)
open_within (suc n) (refused ∷ openings) =
    let (is_open, tries) = open_within n openings in (is_open, suc tries)

-- Whether there is a connection, and how often it was tried.
unfoldable pub connect_scheduler : List Opening → Bool × ℕ
connect_scheduler openings = open_within thrift_retries openings
