-- ===== src/Wsman/Pool.antt =====
-- wsman/pool.go: the slots of `pooledTransport`, a channel that holds the connections not in use.
-- A connection is known by the number of the round of `NewPooledClient` that made it. Any number of
-- senders take their steps in any order.
pub mod Exclusion
use go_wsman.Common.{
  ℕ, zero, suc, ◌+◌, List, [], ◌∷◌, ◌++◌, Bool, true, false, ltb, if◌then◌else◌, Option, none, some,
}

-- the connections in the channel, the next one first, and those that senders have taken out
pub record Pool : Type 0 where
  pub slots : List ℕ
  pub held : List ℕ

-- the loop of `NewPooledClient`, from round `i` on with `left` rounds to go
unfoldable pub make_slots : ℕ → ℕ → List ℕ
make_slots zero i = []
make_slots (suc left) i = i ∷ make_slots left (suc i)

-- the pool of `NewPooledClient`; a size of 0 is refused
unfoldable pub new_pool : ℕ → Option Pool
unfolding make_slots
new_pool zero = none
new_pool (suc n) = some (record { slots = make_slots (suc n) 0; held = [] })

-- the steps of the senders in `pooledTransport.Send`
pub data Step : Pool → Pool → Type 0 where
  -- `t := <-p.slots`
  take_slot :
      {slots held : List ℕ} (t : ℕ)
      → Step (record { slots = t ∷ slots; held = held }) (record { slots = slots; held = t ∷ held })
  -- `p.slots <- t`, deferred to the end of `t.Send`, whatever comes of it
  give_back :
      {slots : List ℕ} (before after : List ℕ) (t : ℕ)
      → Step
          (record { slots = slots; held = before ++ t ∷ after })
          (record { slots = slots ++ t ∷ []; held = before ++ after })
  -- `<-ctx.Done()`
  give_up : {p : Pool} → Step p p

-- what the senders can do to a pool
pub data Reachable (start : Pool) : Pool → Type 0 where
  at_start : Reachable start start
  then_step : {p q : Pool} → Reachable start p → Step p q → Reachable start q
