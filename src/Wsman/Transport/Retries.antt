-- ===== src/Wsman/Transport/Retries.antt =====
-- wsman/transport.go: what the retry loop of `Send` has done when it returns.
use native.Mathlib.Nat.{pow-succ'}
use go_wsman.Common.{
  ap, ◌%◌, ◌∙◌, ◌^◌, ◌<◌, ◌*◌, ℕ, zero, suc, ◌+◌, ◌≤◌, ◌≡◌, refl, sym, true, false, List, [], ◌∷◌,
  Bytes, Result, ok, err, arith, Result-cases, Bool-cases, inl, inr,
}
use go_wsman.Wsman.Transport.{
  timer_of, not_created, Event, sent, waited, SendError, context_cancelled, Network, HttpTransport,
  is_retryable_error, send_once, retry_delay, Sending, after_attempt, before_attempt, one_attempt,
  attempts, send,
}

-- the base delay, doubled `k` times
unfoldable pub doubled : ℕ → ℕ → ℕ
doubled base zero = base
doubled base (suc k) = 2 * doubled base k

-- the events of `n` attempts, the last one first: a delay stands between two of them, the first one is
-- the base delay, and every later one is twice the one before
unfoldable pub schedule : Bytes → ℕ → ℕ → List Event
schedule request base zero = []
schedule request base (suc zero) = sent request ∷ []
schedule request base (suc (suc k)) =
    sent request ∷ waited (doubled base k) ∷ schedule request base (suc k)

-- what the wait before the attempt adds
unfoldable pub waiting : Bytes → ℕ → ℕ → List Event
unfolding schedule
waiting request base zero = []
waiting request base (suc k) = waited (doubled base k) ∷ schedule request base (suc k)

pub schedule-waiting :
    (request : Bytes) (base n : ℕ)
    → schedule request base (suc n) ≡ sent request ∷ waiting request base n
unfolding schedule waiting
schedule-waiting request base zero = refl
schedule-waiting request base (suc k) = refl

product_twice : (b p : ℕ) → 2 * (b * p) ≡ b * (2 * p)
product_twice b p = omega arith

doubled_power : (base k : ℕ) → doubled base k ≡ base * 2 ^ k
unfolding doubled
doubled_power base zero = omega arith
doubled_power base (suc k) =
    let twice : 2 ^ suc k ≡ 2 * 2 ^ k = pow-succ' 2 k in
    ap (λ x. 2 * x) (doubled_power base k)
    ∙ product_twice base (2 ^ k)
    ∙ ap (λ x. base * x) (sym twice)

product_small : (x : ℕ) → x < 2 ^ 63 → timer_of (x % 2 ^ 64) ≡ x
product_small x h = ground arith

-- bits of a product that is small
timer_small :
    (b p : ℕ) → suc b * p < 2 ^ 63 → timer_of ((suc b * (p % 2 ^ 64)) % 2 ^ 64) ≡ suc b * p
timer_small b p h =
    let small : p ≤ suc b * p = omega arith in
    let whole : p % 2 ^ 64 ≡ p = omega (arith, small, h) in rw whole (product_small (suc b * p) h)

-- A delay of less than 2^63 nanoseconds is the doubled one.
pub retry_delay-doubled :
    (base k : ℕ) → doubled base k < 2 ^ 63 → retry_delay base k ≡ doubled base k
unfolding retry_delay
retry_delay-doubled zero k fits =
    let power = doubled_power zero k in
    let nothing : doubled zero k ≡ 0 = omega (arith, power) in
    ap (λ x. timer_of (x % 2 ^ 64)) (let z : 0 * (2 ^ k % 2 ^ 64) ≡ 0 = omega arith in z)
    ∙ sym nothing
retry_delay-doubled (suc b) k fits =
    let power = doubled_power (suc b) k in timer_small b (2 ^ k) (rw power at fits) ∙ sym power

doubled_mono : (base k n : ℕ) → k ≤ n → doubled base k ≤ doubled base n
unfolding doubled
doubled_mono base zero zero h = omega arith
doubled_mono base (suc k) zero h = absurd (omega arith)
doubled_mono base zero (suc n) h = omega (arith, doubled_mono base zero n)
doubled_mono base (suc k) (suc n) h = omega (arith, doubled_mono base k n)

-- The delays of all attempts that are allowed fit into 63 bits.
abbrev pub DelaysFit : HttpTransport → Type 0
DelaysFit t = doubled t.retry_base_delay t.max_retries < 2 ^ 63

pub delay_doubled :
    (t : HttpTransport) (k : ℕ)
    → DelaysFit t
    → k ≤ t.max_retries
    → retry_delay t.retry_base_delay k ≡ doubled t.retry_base_delay k
delay_doubled t k fit h =
    let below = doubled_mono t.retry_base_delay k t.max_retries h in
    retry_delay-doubled t.retry_base_delay k (omega (arith, below, fit))

module _ (net : Network) (t : HttpTransport) (request : Bytes) where
  abbrev pub base : ℕ
  base = t.retry_base_delay

  -- the outcome of attempt number `k`
  abbrev pub outcome : ℕ → Result SendError Bytes
  outcome k = send_once (net.exchange (waiting request base k))

  -- The first `n` attempts failed, each with an error that is retried.
  abbrev pub AllRetried : ℕ → Type 0
  AllRetried zero = Unit
  AllRetried (suc n) =
      AllRetried n × ((e : SendError) × (outcome n ≡ err e) × (is_retryable_error e ≡ true))

  -- How `Send` ends after `n` attempts that were retried: with the answer of the next attempt, with
  -- an error of the next attempt that is not retried, with the error of the last attempt when there
  -- are no more, or when the context ends before the next attempt.
  pub data Sent (limit : ℕ) : Sending → Type 0 where
    delivered :
        (n : ℕ) (body : Bytes)
        → suc n ≤ limit
        → AllRetried n
        → outcome n ≡ ok body
        → Sent limit (ok body, schedule request base (suc n))
    refused :
        (n : ℕ) (e : SendError)
        → suc n ≤ limit
        → AllRetried n
        → outcome n ≡ err e
        → is_retryable_error e ≡ false
        → Sent limit (err e, schedule request base (suc n))
    exhausted :
        (n : ℕ) (e : SendError)
        → suc n ≡ limit
        → AllRetried (suc n)
        → outcome n ≡ err e
        → Sent limit (err e, schedule request base (suc n))
    stopped :
        (n : ℕ)
        → suc n ≤ limit
        → AllRetried n
        → Sent limit (err context_cancelled, schedule request base n)

  step :
      (limit left n : ℕ)
      → suc n + left ≡ limit
      → AllRetried n
      → ((e : SendError)
          → outcome n ≡ err e
          → is_retryable_error e ≡ true
          → Sent limit (attempts net t request left (suc n) e (schedule request base (suc n))))
      → Sent limit (
          after_attempt
            (outcome n)
            (sent request ∷ waiting request base n)
            (attempts net t request left (suc n)))
  unfolding after_attempt
  step limit left n room tried again = elim (Result-cases (outcome n)) [
    | inl (body, good) ↦
        rw (good, after_attempt)
          (rw (sym (schedule-waiting request base n)) (delivered n body (omega arith) tried good))
    | inr (e, bad) ↦ elim (Bool-cases (is_retryable_error e)) [
      | inl retry ↦
          rw (bad, after_attempt)
            (rw retry (rw (sym (schedule-waiting request base n)) (again e bad retry)))
      | inr final ↦
          rw (bad, after_attempt)
            (rw final (
              rw (sym (schedule-waiting request base n))
                (refused n e (omega arith) tried bad final)))
    ]
  ]

  enter :
      (limit left n : ℕ) (last : SendError)
      → DelaysFit t
      → limit ≡ suc t.max_retries
      → suc n ≤ limit
      → AllRetried n
      → Sent limit (
          after_attempt
            (outcome n)
            (sent request ∷ waiting request base n)
            (attempts net t request left (suc n)))
      → Sent limit (attempts net t request (suc left) n last (schedule request base n))
  unfolding attempts one_attempt before_attempt waiting
  enter limit left zero last fit all room tried s = s
  enter limit left (suc k) last fit all room tried s =
      elim (Bool-cases (net.timer_fires (schedule request base (suc k)))) [
        | inl fires ↦ rw (fires, one_attempt) (rw (delay_doubled t k fit (omega arith)) s)
        | inr ends ↦ rw (ends, one_attempt) (stopped (suc k) room tried)
      ]

  attempts-Sent :
      (limit left n : ℕ) (last : SendError)
      → DelaysFit t
      → limit ≡ suc t.max_retries
      → suc n + left ≡ limit
      → AllRetried n
      → Sent limit (attempts net t request (suc left) n last (schedule request base n))
  unfolding attempts
  attempts-Sent limit zero n last fit all room tried =
      enter limit zero n last fit all (omega arith) tried (
        step limit zero n room tried
          (λ e bad retry. exhausted n e (omega arith) (tried, (e, bad, retry)) bad))
  attempts-Sent limit (suc left) n last fit all room tried =
      enter limit (suc left) n last fit all (omega arith) tried (
        step limit (suc left) n room tried (λ e bad retry.
          attempts-Sent limit left (suc n) e fit all (omega arith) (tried, (e, bad, retry))))

  -- If no delay that the retries allow reaches 2^63 nanoseconds, `Send` makes at most `1 + maxRetries`
  -- attempts, waits the base delay before the second one and twice the last delay before every
  -- later one, and returns the answer of the last attempt, its error when that is not retried or
  -- was the last one allowed, or the end of the context. All attempts before the last one failed
  -- with errors that are retried.
  pub send-Sent : DelaysFit t → Sent (suc t.max_retries) (send net t request [])
  unfolding send schedule
  send-Sent fit =
      attempts-Sent (suc t.max_retries) t.max_retries 0 not_created fit refl (omega arith) tt
