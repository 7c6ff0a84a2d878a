-- ===== src/Wsman/Pool/Exclusion.antt =====
-- wsman/pool.go: no connection is lost, and none is used by two senders at once.
use mathlib.Core.Path.{subst}
use go_wsman.Common.{
  ℕ, zero, suc, ◌+◌, ◌≡◌, refl, ap, List, [], ◌∷◌, ◌++◌, ltb, leb, ◌==◌, ◌&&◌, if◌then◌else◌, some,
  length, length-append, arith,
}
use go_wsman.Wsman.Pool.{
  Pool, make_slots, new_pool, Step, take_slot, give_back, give_up, Reachable, at_start, then_step,
}

-- how often a connection stands in a list
unfoldable pub count : ℕ → List ℕ → ℕ
count t [] = 0
count t (x ∷ xs) = (if x == t then 1 else 0) + count t xs

count_append : (t : ℕ) (xs ys : List ℕ) → count t (xs ++ ys) ≡ count t xs + count t ys
unfolding count
count_append t [] ys = omega arith
count_append t (x ∷ xs) ys = omega (arith, count_append t xs ys)

count_slots :
    (t left i : ℕ) → count t (make_slots left i) ≡ (if leb i t && ltb t (i + left) then 1 else 0)
unfolding count make_slots
count_slots t zero i = ground arith
count_slots t (suc left) i = ground (arith, count_slots t left (suc i))

length_slots : (left i : ℕ) → length (make_slots left i) ≡ left
unfolding make_slots
length_slots zero i = refl
length_slots (suc left) i = ap suc (length_slots left (suc i))

-- All the connections are in the channel or in use, each of them once.
pub record Shared (size : ℕ) (p : Pool) : Type 0 where
  pub once : (t : ℕ) → count t p.slots + count t p.held ≡ (if ltb t size then 1 else 0)
  pub all_there : length p.slots + length p.held ≡ size

Step-Shared : (size : ℕ) {p q : Pool} → Step p q → Shared size p → Shared size q
unfolding count
Step-Shared size (take_slot t) s = record {
  once = λ u. (let h = s.once u in omega arith);
  all_there = (let h = s.all_there in omega arith);
}
Step-Shared size (give_back {slots} before after t) s = record {
  once = λ u.
      (let h = s.once u in
        let moved = count_append u slots (t ∷ []) in
        let was = count_append u before (t ∷ after) in
        let is = count_append u before after in omega arith);
  all_there =
      (let h = s.all_there in
        let moved = length-append slots (t ∷ []) in
        let was = length-append before (t ∷ after) in
        let is = length-append before after in omega arith);
}
Step-Shared size give_up s = s

start-Shared : (n : ℕ) → Shared n (record { slots = make_slots n 0; held = [] })
unfolding count
start-Shared n = record {
  once = λ t. ground (arith, count_slots t n 0);
  all_there = omega (arith, length_slots n 0);
}

new_pool-Shared : (size : ℕ) (p : Pool) → new_pool size ≡ some p → Shared size p
unfolding new_pool count
new_pool-Shared zero p e = cc
new_pool-Shared (suc n) p e = subst (Shared (suc n)) (cc) (start-Shared (suc n))

-- From a new pool of any size, whatever steps the senders take, each of its connections stands once
-- in the channel or with one sender, and no other connection does: two senders never use the same
-- one, none is lost, and the channel, whose capacity is the size, never blocks a sender that gives
-- a connection back.
pub Reachable-Shared :
    (size : ℕ) {start p : Pool} → new_pool size ≡ some start → Reachable start p → Shared size p
Reachable-Shared size {start} e at_start = new_pool-Shared size start e
Reachable-Shared size e (then_step r s) = Step-Shared size s (Reachable-Shared size e r)
