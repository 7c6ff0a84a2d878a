-- ===== src/Wsman/Transport.antt =====
-- wsman/transport.go: a request is sent, and sent again after a delay that doubles while the error
-- can be retried. What net/http and the clock do is a `Network`, asked at each event for what it
-- does after all the events so far (the last one first).
pub mod Retries
pub mod Delivery
use go_wsman.Common.{
  ℕ, zero, suc, ◌+◌, ◌*◌, ◌%◌, ◌^◌, leb, ltb, Bool, true, false, not, ◌&&◌, List, [], ◌∷◌, Bytes,
  is_empty, if◌then◌else◌, Result, ok, err,
}

pub data Event : Type 0 where
  sent : Bytes → Event
  waited : ℕ → Event

-- what one HTTP request comes to
pub data Exchange : Type 0 where
  no_request : Exchange
  no_response : Exchange
  body_cut_off : Exchange
  answer : ℕ → Bytes → Exchange

pub data SendError : Type 0 where
  not_created : SendError
  not_sent : SendError
  not_read : SendError
  http_status_error : ℕ → SendError
  context_cancelled : SendError

pub record Network : Type 0 where
  -- the outcome of a request
  pub exchange : List Event → Exchange
  -- whether the timer fires before the context is done
  pub timer_fires : List Event → Bool

-- the part of `HTTPTransport` that `Send` reads; the endpoint and the credentials go with the request
pub record HttpTransport : Type 0 where
  pub max_retries : ℕ
  pub retry_base_delay : ℕ

-- `isRetryableError`
unfoldable pub is_retryable_error : SendError → Bool
is_retryable_error (http_status_error n) = false
is_retryable_error _ = true

-- the part of `sendOnce` behind the exchange
unfoldable pub send_once : Exchange → Result SendError Bytes
send_once no_request = err not_created
send_once no_response = err not_sent
send_once body_cut_off = err not_read
send_once (answer status body) =
    if leb 400 status && not (is_empty body)
    then ok body
    else if leb 400 status
    then err (http_status_error status)
    else ok body

-- how long the timer of a `Duration` runs, whose 64 bits are signed: not at all if it is negative
abbrev pub timer_of : ℕ → ℕ
timer_of bits = if ltb bits (2 ^ 63) then bits else 0

-- the timer of `t.retryBaseDelay * (1 << (attempt - 1))`, for the attempt behind `k` others and one
unfoldable pub retry_delay : ℕ → ℕ → ℕ
retry_delay base k = timer_of ((base * (2 ^ k % 2 ^ 64)) % 2 ^ 64)

abbrev pub Sending : Type 0
Sending = Result SendError Bytes × List Event

-- behind an attempt: the loop goes on with `again`
unfoldable pub after_attempt :
    Result SendError Bytes → List Event → (SendError → List Event → Sending) → Sending
unfolding is_retryable_error
after_attempt (ok body) events again = (ok body, events)
after_attempt (err e) events again =
    if is_retryable_error e then again e events else (err e, events)

module _ (net : Network) (t : HttpTransport) (request : Bytes) where
  -- the `select` before an attempt that is not the first: `err` if the context is done
  unfoldable pub before_attempt : ℕ → List Event → Result SendError (List Event)
  unfolding retry_delay
  before_attempt zero events = ok events
  before_attempt (suc k) events =
      if net.timer_fires events
      then ok (waited (retry_delay t.retry_base_delay k) ∷ events)
      else err context_cancelled

  -- one round of the loop
  unfoldable pub one_attempt : ℕ → List Event → (SendError → List Event → Sending) → Sending
  unfolding before_attempt send_once after_attempt
  one_attempt attempt events again = elim (before_attempt attempt events) [
    | err e ↦ (err e, events)
    | ok events' ↦ after_attempt (send_once (net.exchange events')) (sent request ∷ events') again
  ]

  -- the loop, from the attempt `attempt` on, of which `left` are left
  unfoldable pub attempts : ℕ → ℕ → SendError → List Event → Sending
  unfolding one_attempt
  attempts zero attempt last events = (err last, events)
  attempts (suc left) attempt last events = one_attempt attempt events (attempts left (suc attempt))

  -- `Send`; there is an attempt, so the error that is given first is never returned
  unfoldable pub send : List Event → Sending
  unfolding attempts
  send events = attempts (suc t.max_retries) 0 not_created events
