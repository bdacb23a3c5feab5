-- ===== src/Client/Scheduler/Retry.antt =====
-- src/main/python/apache/aurora/client/api/scheduler_client.py: which calls are made again.
use aurora_client.Base.{
  ℕ, zero, suc, ◌+◌, ◌≡◌, refl, Bool, true, false, ◌||◌, some, List, [], ◌∷◌, ◌++◌, if◌then◌else◌,
  ◌⊎◌, all, get_last?, arith, inl, inr, all-append, append_nil,
}
use aurora_client.Client.Scheduler.{
  Constructed, has_client, timed_out, auth_failed, construct_scheduler, Turn, Reply, responded,
  transient, transport_error, auth_error, type_error, other_error, is_type_error, Outcome, returned,
  nothing, raised_auth, raised_not_retriable, raised_thrift_internal, raised_timeout, unfinished,
  Attempt, sent, not_connected, not_constructed, Next, ends_with, try_again, look_again, refill,
  invoke, attempt, unless_terminating, after, call,
}

-- The method may be invoked again after such a reply: the scheduler was not ready, or the arguments
-- did not fit.
unfoldable pub may_repeat : Reply → Bool
may_repeat transient = true
may_repeat type_error = true
may_repeat _ = false

-- `xs[:-1]`
unfoldable pub before_last : List Reply → List Reply
before_last [] = []
before_last (x ∷ []) = []
before_last (x ∷ y ∷ xs) = x ∷ before_last (y ∷ xs)

-- All invocations of the method, in order.
abbrev pub invoked_by : Attempt → List Reply
invoked_by (sent earlier last) = earlier ++ last ∷ []
invoked_by _ = []

unfoldable pub invoked : List Attempt → List Reply
invoked [] = []
invoked (made ∷ attempts) = invoked_by made ++ invoked attempts

Constructed-cases : (c : Constructed) → (c ≡ has_client) ⊎ ((c ≡ timed_out) ⊎ (c ≡ auth_failed))
Constructed-cases has_client = inl refl
Constructed-cases timed_out = inr (inl refl)
Constructed-cases auth_failed = inr (inr refl)

pub Next-cases :
    (n : Next) → ((o : Outcome) × (n ≡ ends_with o)) ⊎ ((n ≡ try_again) ⊎ (n ≡ look_again))
Next-cases (ends_with o) = inl (o, refl)
Next-cases try_again = inr (inl refl)
Next-cases look_again = inr (inr refl)

type_error_repeats : (r : Reply) → is_type_error r ≡ true → may_repeat r ≡ true
unfolding may_repeat
type_error_repeats type_error h = refl
type_error_repeats (responded code) h = cc
type_error_repeats transient h = cc
type_error_repeats transport_error h = cc
type_error_repeats auth_error h = cc
type_error_repeats other_error h = cc

-- Within an attempt the method is invoked again only after a TypeError.
refill-may_repeat :
    (missing : ℕ) (reply : ℕ → Reply) (i : ℕ) → all may_repeat (refill missing reply i).0 ≡ true
unfolding refill
refill-may_repeat zero reply i = refl
refill-may_repeat (suc missing) reply i =
    ground (arith, refill-may_repeat missing reply (suc i), type_error_repeats (reply i))

-- An attempt, all invocations of which but the last may be repeated.
abbrev repeats : Attempt → Bool
repeats (sent earlier last) = all may_repeat earlier
repeats _ = true

attempt-repeats :
    (missing : ℕ) (client : Bool) (turn : Turn) → repeats (attempt missing client turn) ≡ true
unfolding attempt invoke
attempt-repeats missing true turn =
    ground (arith, refill-may_repeat missing turn.reply 1, type_error_repeats (turn.reply 0))
attempt-repeats missing false turn =
    elim (Constructed-cases (construct_scheduler turn.connecting)) [
      | inl there ↦
          ground (
            arith,
            there,
            refill-may_repeat missing turn.reply 1,
            type_error_repeats (turn.reply 0),
          )
      | inr (inl late) ↦ ground (arith, late)
      | inr (inr refused) ↦ ground (arith, refused)
    ]

-- A call that is not idempotent is tried again only after an attempt that may be repeated whole.
again_repeats :
    (turn : Turn) (made : Attempt)
    → repeats made ≡ true
    → after false turn made ≡ try_again
    → all may_repeat (invoked_by made) ≡ true
unfolding after unless_terminating may_repeat
again_repeats turn (sent earlier (responded code)) r h = cc
again_repeats turn (sent earlier auth_error) r h = cc
again_repeats turn (sent earlier transport_error) r h = ground arith
again_repeats turn (sent earlier transient) r h =
    ground (arith, r, all-append may_repeat earlier (transient ∷ []))
again_repeats turn (sent earlier type_error) r h = ground arith
again_repeats turn (sent earlier other_error) r h = ground arith
again_repeats turn not_connected r h = refl
again_repeats turn not_constructed r h = refl

pub looks_terminating :
    (retry : Bool) (turn : Turn) (made : Attempt)
    → after retry turn made ≡ look_again
    → turn.set_meanwhile ≡ true
unfolding after unless_terminating
looks_terminating retry turn (sent earlier (responded code)) h = cc
looks_terminating retry turn (sent earlier auth_error) h = cc
looks_terminating retry turn (sent earlier transport_error) h = ground arith
looks_terminating retry turn (sent earlier transient) h = ground arith
looks_terminating retry turn (sent earlier type_error) h = ground arith
looks_terminating retry turn (sent earlier other_error) h = ground arith
looks_terminating retry turn not_connected h = ground arith
looks_terminating retry turn not_constructed h = ground arith

before_last-append :
    (xs ys : List Reply)
    → all may_repeat xs ≡ true
    → all may_repeat (before_last ys) ≡ true
    → all may_repeat (before_last (xs ++ ys)) ≡ true
unfolding before_last
before_last-append [] ys h k = k
before_last-append (x ∷ []) [] h k = refl
before_last-append (x ∷ []) (y ∷ ys) h k = ground (arith, h, k)
before_last-append (x ∷ y ∷ xs) ys h k =
    ground (arith, h, before_last-append (y ∷ xs) ys (ground (arith, h)) k)

attempt_once :
    (made : Attempt) → repeats made ≡ true → all may_repeat (before_last (invoked_by made)) ≡ true
unfolding before_last
attempt_once (sent earlier last) h = before_last-append earlier (last ∷ []) h refl
attempt_once not_connected h = refl
attempt_once not_constructed h = refl

-- Of a call that may not be retried every invocation of the method but the last raised a TypeError or
-- was answered by ERROR_TRANSIENT: after a response, a transport error or any other exception the
-- method is not invoked again.
pub call_once :
    (missing : ℕ) (client set : Bool) (clock : ℕ) (turns : List Turn)
    → all may_repeat (before_last (invoked (call false missing client set clock turns).1)) ≡ true
unfolding call invoked before_last
call_once missing client true clock turns = refl
call_once missing client false clock [] = refl
call_once missing client false clock (turn ∷ turns) =
    let made = attempt missing client turn in
    let ready = attempt-repeats missing client turn in
    let set = turn.set_meanwhile || turn.set_waiting in
    let later = clock + turn.spent + 5 in
    let attempts = (call false missing false set later turns).1 in
    let rest = call_once missing false set later turns in
    elim (Next-cases (after false turn made)) [
      | inl (outcome, ended) ↦
          ground (arith, ended, attempt_once made ready, append_nil (invoked_by made))
      | inr (inl again) ↦ ground (
        arith,
        again,
        before_last-append (invoked_by made) (invoked attempts)
            (again_repeats turn made ready again) rest,
      )
      | inr (inr looks) ↦ ground (
        arith,
        looks,
        looks_terminating false turn made looks,
        attempt_once made ready,
        append_nil (invoked_by made),
      )
    ]

-- How a call ends, by the last attempt that was made.
unfoldable pub verdict : Bool → Attempt → Outcome
verdict retry (sent earlier (responded code)) = returned code
verdict retry (sent earlier auth_error) = raised_auth
verdict retry (sent earlier transport_error) =
    if retry then raised_timeout else raised_not_retriable
verdict retry (sent earlier transient) = raised_timeout
verdict retry not_connected = raised_timeout
verdict retry (sent earlier other_error) = raised_thrift_internal
verdict retry (sent earlier type_error) = raised_thrift_internal
verdict retry not_constructed = raised_thrift_internal

unfoldable pub is_final : Outcome → Bool
is_final nothing = false
is_final raised_timeout = false
is_final unfinished = false
is_final _ = true

ends-verdict :
    (retry : Bool) (turn : Turn) (made : Attempt) (outcome : Outcome)
    → after retry turn made ≡ ends_with outcome
    → verdict retry made ≡ outcome
unfolding after unless_terminating verdict
ends-verdict retry turn (sent earlier (responded code)) outcome h = ground arith
ends-verdict retry turn (sent earlier auth_error) outcome h = ground arith
ends-verdict retry turn (sent earlier transport_error) outcome h = ground arith
ends-verdict retry turn (sent earlier transient) outcome h = ground arith
ends-verdict retry turn (sent earlier other_error) outcome h = ground arith
ends-verdict retry turn (sent earlier type_error) outcome h = ground arith
ends-verdict retry turn not_connected outcome h = ground arith
ends-verdict retry turn not_constructed outcome h = ground arith

last_of_more :
    (x : Attempt) (xs : List Attempt) (last : Attempt)
    → get_last? xs ≡ some last
    → get_last? (x ∷ xs) ≡ some last
last_of_more x [] last h = cc
last_of_more x (y ∷ xs) last h = h

-- A call that ends otherwise than by its time, by the terminating event or in the middle of its turns
-- ends as its last attempt says: it returns a response only if the last invocation of that attempt had
-- it, and it raises AuthError or NotRetriableError only for an error of the authentication or of the
-- transport in that invocation. It raises ThriftInternalError for a TypeError or another exception of
-- that invocation, and, against a comment in the source, where connecting failed otherwise than by a
-- missing connection: the AuthError of _construct_scheduler is caught.
pub call-verdict :
    (retry : Bool) (missing : ℕ) (client set : Bool) (clock : ℕ) (turns : List Turn)
    → is_final (call retry missing client set clock turns).0 ≡ true
    → (made : Attempt) × (get_last? (call retry missing client set clock turns).1 ≡ some made)
      × (verdict retry made ≡ (call retry missing client set clock turns).0)
unfolding call is_final
call-verdict retry missing client true clock turns h = cc
call-verdict retry missing client false clock [] h = cc
call-verdict retry missing client false clock (turn ∷ turns) h =
    let made = attempt missing client turn in
    let set = turn.set_meanwhile || turn.set_waiting in
    let later = clock + turn.spent + 5 in
    let attempts = (call retry missing false set later turns).1 in
    elim (Next-cases (after retry turn made)) [
      | inl (outcome', ended) ↦ (
        made,
        ground (arith, ended),
        ground (arith, ended, ends-verdict retry turn made outcome' ended),
      )
      | inr (inl again) ↦
          let (last, found, same) =
            call-verdict retry missing false set later turns (ground (arith, again)) in
          (
            last,
            ground (arith, again, found, last_of_more made attempts last),
            ground (arith, again, same),
          )
      | inr (inr looks) ↦
          let (last, found, same) =
            call-verdict retry missing false set later turns (ground (arith, looks)) in
          (
            last,
            ground (arith, looks, found, last_of_more made attempts last),
            ground (arith, looks, same),
          )
    ]
