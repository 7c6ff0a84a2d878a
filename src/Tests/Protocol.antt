-- ===== src/Tests/Protocol.antt =====
-- wsman/ against a network and a server that are written out.
use go_wsman.Common.{
  zero, suc, ◌≤◌, ◌<◌, err, arith, some, ℕ, ◌≡◌, refl, Bool, true, List, [], ◌∷◌, codes, none, ok,
  ◌↔◌, length, ◌==◌,
}
use go_wsman.Wsman.Pool.{Pool, take_slot, give_back, Reachable, at_start, then_step, new_pool}
use go_wsman.Wsman.Pool.Exclusion.{Shared, Reachable-Shared}
use go_wsman.Wsman.Transport.{
  Event, sent, waited, Network, HttpTransport, Exchange, no_response, answer, send,
}
use go_wsman.Wsman.Transport.{SendError, not_sent, is_retryable_error, send_once}
use go_wsman.Wsman.Transport.Retries.{
  DelaysFit, doubled, Sent, send-Sent, outcome, schedule, waiting,
}
use go_wsman.Wsman.Transport.Delivery.{Recovers, send_delivers}
use go_wsman.Wsman.Enumeration.{WsRequest, Server, document, PullDocument, enumerate}
use go_wsman.Wsman.Enumeration.Pages.{Listed, enumerate-Listed}

-- The first request is lost, and the second one is answered.
abbrev second_time : List Event → Exchange
second_time [] = no_response
second_time (e ∷ es) = answer 200 (codes "<ok/>")

abbrev network : Network
network = record { exchange = second_time; timer_fires = λ es. true }

abbrev transport : HttpTransport
transport = record { max_retries = 3; retry_base_delay = 1000000000 }

send_run :
    send network transport (codes "<q/>") []
    ≡ (ok (codes "<ok/>"), sent (codes "<q/>") ∷ waited 1000000000 ∷ sent (codes "<q/>") ∷ [])
unfolding send
send_run = refl

delays_fit : DelaysFit transport
unfolding doubled
delays_fit = omega arith

send-Sent_example :
    Sent network transport (codes "<q/>") 4 (send network transport (codes "<q/>") [])
send-Sent_example = send-Sent network transport (codes "<q/>") delays_fit

-- A server with two pages, both without items.
abbrev page_document : Bool → PullDocument
page_document end = record { items = none; enumeration_context = codes "c2"; end_of_sequence = end }

abbrev server : Server
server = record {
  open_answer = λ h. document (codes "c1");
  pull_answer = λ h. document (page_document (length h == 3));
}

abbrev listing_history : List WsRequest
listing_history = (enumerate server (codes "u/C") none []).1

enumerate_run : enumerate server (codes "u/C") none [] ≡ (ok [], listing_history)
unfolding enumerate
enumerate_run = refl

enumerate-Listed_example :
    (enumerate server (codes "u/C") none [] ≡ (ok [], listing_history))
    ↔ Listed server (codes "u/C") none [] [] listing_history
enumerate-Listed_example = enumerate-Listed server (codes "u/C") none [] [] listing_history

-- a pool of two connections, of which the first is taken, and then the second and given back
abbrev pool_of : List ℕ → List ℕ → Pool
pool_of slots held = record { slots = slots; held = held }

pool_run : Reachable (pool_of (0 ∷ 1 ∷ []) []) (pool_of (1 ∷ []) (0 ∷ []))
pool_run =
    then_step (then_step (then_step at_start (take_slot 0)) (take_slot 1)) (give_back [] (0 ∷ []) 1)

two_slots : new_pool 2 ≡ some (pool_of (0 ∷ 1 ∷ []) [])
unfolding new_pool
two_slots = refl

Reachable-Shared_example : Shared 2 (pool_of (1 ∷ []) (0 ∷ []))
Reachable-Shared_example = Reachable-Shared 2 two_slots pool_run

first_lost :
    (j : ℕ)
    → j < 1
    → (e : SendError) × (outcome network transport (codes "<q/>") j ≡ err e)
      × (is_retryable_error e ≡ true)
unfolding send_once is_retryable_error waiting
first_lost zero h = (not_sent, refl, refl)
first_lost (suc j) h = absurd (omega (arith, h))

second_answered : outcome network transport (codes "<q/>") 1 ≡ ok (codes "<ok/>")
unfolding send_once waiting
second_answered = refl

recovers : Recovers network transport (codes "<q/>") 1 (codes "<ok/>")
recovers = record { fails = first_lost; answers = second_answered; fires = λ j h. refl }

send_delivers_example :
    send network transport (codes "<q/>") []
    ≡ (ok (codes "<ok/>"), schedule (codes "<q/>") 1000000000 2)
send_delivers_example =
    send_delivers network transport (codes "<q/>") 1 (codes "<ok/>") recovers delays_fit
      (let h : 1 ≤ 3 = omega arith in h)
