-- ===== src/Wsman/Transport/Delivery.antt =====
-- wsman/transport.go: `Send` delivers when the network recovers in time.
use go_wsman.Common.{
  ℕ, zero, suc, ◌+◌, ◌≤◌, ◌<◌, ◌≡◌, refl, sym, ap, ◌∙◌, true, [], ◌∷◌, Bytes, ok, err, arith,
}
use go_wsman.Wsman.Transport.{
  not_created, sent, SendError, Network, HttpTransport, is_retryable_error, after_attempt,
  before_attempt, one_attempt, attempts, send,
}
use go_wsman.Wsman.Transport.Retries.{
  delay_doubled, DelaysFit, schedule, waiting, schedule-waiting, base, outcome,
}

module _ (net : Network) (t : HttpTransport) (request : Bytes) where
  -- The attempts before number `n` fail with errors that are retried, attempt `n` has an answer, and
  -- the timer fires before each attempt up to it.
  pub record Recovers (n : ℕ) (body : Bytes) : Type 0 where
    pub fails :
        (j : ℕ)
        → j < n
        → (e : SendError) × (outcome net t request j ≡ err e) × (is_retryable_error e ≡ true)
    pub answers : outcome net t request n ≡ ok body
    pub fires :
        (j : ℕ) → j < n → net.timer_fires (schedule request (base net t request) (suc j)) ≡ true

  enter_attempt :
      (n left i : ℕ) (last : SendError) (body : Bytes)
      → Recovers n body
      → DelaysFit t
      → n ≤ t.max_retries
      → i ≤ n
      → attempts net t request (suc left) i last (schedule request (base net t request) i)
        ≡ after_attempt
            (outcome net t request i)
            (sent request ∷ waiting request (base net t request) i)
            (attempts net t request left (suc i))
  unfolding attempts one_attempt before_attempt waiting
  enter_attempt n left zero last body r fit room h = refl
  enter_attempt n left (suc i) last body r fit room h =
      rw (r.fires i (omega arith), one_attempt) (rw (delay_doubled t i fit (omega arith)) refl)

  answered :
      (left i : ℕ) (body : Bytes)
      → outcome net t request i ≡ ok body
      → after_attempt
          (outcome net t request i)
          (sent request ∷ waiting request (base net t request) i)
          (attempts net t request left (suc i))
        ≡ (ok body, schedule request (base net t request) (suc i))
  unfolding after_attempt
  answered left i body good =
      rw (good, after_attempt)
        (ap (λ events. (ok body, events)) (sym (schedule-waiting request (base net t request) i)))

  retried :
      (left i : ℕ) (e : SendError)
      → outcome net t request i ≡ err e
      → is_retryable_error e ≡ true
      → after_attempt
          (outcome net t request i)
          (sent request ∷ waiting request (base net t request) i)
          (attempts net t request (suc left) (suc i))
        ≡ attempts net t request
            (suc left)
            (suc i)
            e
            (schedule request (base net t request) (suc i))
  unfolding after_attempt
  retried left i e bad again =
      rw (bad, after_attempt)
        (rw again (
          ap (attempts net t request (suc left) (suc i) e)
            (sym (schedule-waiting request (base net t request) i))))

  deliver :
      (k n left i : ℕ) (last : SendError) (body : Bytes)
      → Recovers n body
      → DelaysFit t
      → n ≤ t.max_retries
      → i + k ≡ n
      → k ≤ left
      → attempts net t request (suc left) i last (schedule request (base net t request) i)
        ≡ (ok body, schedule request (base net t request) (suc n))
  deliver zero n left i last body r fit all at_n room =
      let here : outcome net t request i ≡ ok body =
        ap (outcome net t request) (let k : i ≡ n = omega arith in k) ∙ r.answers in
      enter_attempt n left i last body r fit all (omega arith)
      ∙ answered left i body here
      ∙ ap (λ j. (ok body, schedule request (base net t request) (suc j)))
          (let k : i ≡ n = omega arith in k)
  deliver (suc k) n zero i last body r fit all at_n room = absurd (omega arith)
  deliver (suc k) n (suc left) i last body r fit all at_n room =
      let (e, failed, again) = r.fails i (omega arith) in
      enter_attempt n (suc left) i last body r fit all (omega arith)
      ∙ retried left i e failed again
      ∙ deliver k n left (suc i) e body r fit all (omega arith) (omega arith)

  -- If the network recovers at an attempt that is allowed, and no delay that the retries allow reaches
  -- 2^63 nanoseconds, `Send` returns the answer of that attempt. It has made one attempt more than
  -- those that failed, and waited between them for the base delay first and then each time for
  -- twice the delay before.
  pub send_delivers :
      (n : ℕ) (body : Bytes)
      → Recovers n body
      → DelaysFit t
      → n ≤ t.max_retries
      → send net t request [] ≡ (ok body, schedule request (base net t request) (suc n))
  unfolding send schedule
  send_delivers n body r fit room =
      deliver n n t.max_retries 0 not_created body r fit room (omega arith) room
