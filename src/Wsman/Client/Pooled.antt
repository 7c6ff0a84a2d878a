-- ===== src/Wsman/Client/Pooled.antt =====
-- wsman/pool.go: `NewPooledClient`, from the size and the options to the client whose slots hold one
-- transport for each connection. Every round makes a client of its own, and may find other files than
-- the round before; a size is a natural number.
use mathlib.Core.Path.{subst}
use go_wsman.Common.{
  ◌≡◌, ◌+◌, ◌<◌, arith, sym, ℕ, zero, suc, Bool, true, false, Option, some, List, [], ◌∷◌, ◌++◌,
  Bytes, is_empty, Bool-cases, inl, inr, Result, ok, err, Result-cases,
}
use go_wsman.Common.Results.{◌>>=◌, ◌>>◌, map_err}
use go_wsman.Wsman.Client.{HttpTransport, Client, ClientError, ClientOption, Files}
use go_wsman.Wsman.Client.Construction.{new, new_client}
use go_wsman.Wsman.Client.Errors.{
  Outcome, refused_endpoint, failed_option, no_record_directory, built, new_client-Outcome,
}

pub data PooledError : Type 0 where
  no_size : PooledError
  -- the error of the client of a round
  client_failed : ℕ → ClientError → PooledError
  recorder_given : PooledError

-- the `Client` that `NewPooledClient` returns, with the channel of its `pool`
pub record PooledClient : Type 0 where
  pub client : Client
  pub slots : List (Option HttpTransport)

-- `c.recordDir != ""`
abbrev pub refuse_recorder : Bool → Result PooledError (Unit {0})
refuse_recorder true = ok tt
refuse_recorder false = err recorder_given

-- `files i` is what round `i` finds in the files
module _ (files : ℕ → Files) (endpoint : Bytes) (options : List ClientOption) where
  -- the loop, from round `i` on with `left` rounds to go
  unfoldable pub fill_slots :
      ℕ → ℕ → List (Option HttpTransport) → Result PooledError (List (Option HttpTransport))
  fill_slots zero i slots = ok slots
  fill_slots (suc left) i slots = do
    c ← map_err (client_failed i) (new_client (files i) endpoint options)
    refuse_recorder (is_empty c.record_dir)
    fill_slots left (suc i) (slots ++ c.transport ∷ [])

  abbrev with_pool : List (Option HttpTransport) → PooledClient
  with_pool slots = record { client = new; slots = slots }

  -- `NewPooledClient`
  unfoldable pub new_pooled_client : ℕ → Result PooledError PooledClient
  unfolding fill_slots
  new_pooled_client zero = err no_size
  new_pooled_client (suc n) = do slots ← fill_slots (suc n) 0 []; ok (with_pool slots)

  -- The first `n` rounds have each made a client that does not record, and the slots hold the
  -- transports of these clients, one of each round and none that is nil.
  pub data Rounds : ℕ → List (Option HttpTransport) → Type 0 where
    no_round : Rounds 0 []
    one_more :
        {n : ℕ} {slots : List (Option HttpTransport)} (c : Client) (t : HttpTransport)
        → Rounds n slots
        → new_client (files n) endpoint options ≡ ok c
        → is_empty c.record_dir ≡ true
        → c.transport ≡ some t
        → Rounds (suc n) (slots ++ some t ∷ [])

  -- What the loop over the rounds comes to.
  pub data Filled (size : ℕ) : Result PooledError (List (Option HttpTransport)) → Type 0 where
    refused_client :
        (i : ℕ) (slots : List (Option HttpTransport)) (e : ClientError)
        → i < size
        → Rounds i slots
        → new_client (files i) endpoint options ≡ err e
        → Filled size (err (client_failed i e))
    refused_recorder :
        (i : ℕ) (slots : List (Option HttpTransport)) (c : Client)
        → i < size
        → Rounds i slots
        → new_client (files i) endpoint options ≡ ok c
        → is_empty c.record_dir ≡ false
        → Filled size (err recorder_given)
    filled : (slots : List (Option HttpTransport)) → Rounds size slots → Filled size (ok slots)

  -- What `NewPooledClient` returns for a size.
  pub data Pooled : ℕ → Result PooledError PooledClient → Type 0 where
    refused_size : Pooled 0 (err no_size)
    refused : {n : ℕ} (why : PooledError) → Filled (suc n) (err why) → Pooled (suc n) (err why)
    pooled :
        {n : ℕ} (slots : List (Option HttpTransport))
        → Rounds (suc n) slots
        → Pooled (suc n) (ok (record { client = new; slots = slots }))

  has_transport :
      (i : ℕ) {r : Result ClientError Client} (c : Client)
      → Outcome (files i) endpoint options r
      → r ≡ ok c
      → (t : HttpTransport) × (c.transport ≡ some t)
  has_transport i c (refused_endpoint e bad) h = cc
  has_transport i c (failed_option u e good failed) h = cc
  has_transport i c (no_record_directory u good fine records bad) h = cc
  has_transport i c (built u d t good fine there recorded) h = (t, cc)

  next_round :
      {i : ℕ} {slots : List (Option HttpTransport)} (c : Client)
      → Rounds i slots
      → new_client (files i) endpoint options ≡ ok c
      → is_empty c.record_dir ≡ true
      → Rounds (suc i) (slots ++ c.transport ∷ [])
  next_round {i} {slots} c before made silent =
      let (t, there) = has_transport i c (new_client-Outcome (files i) endpoint options) made in
      subst (λ x. Rounds (suc i) (slots ++ x ∷ [])) (sym there)
        (one_more c t before made silent there)

  fill_slots-Filled :
      (size left i : ℕ) (slots : List (Option HttpTransport))
      → i + left ≡ size
      → Rounds i slots
      → Filled size (fill_slots left i slots)
  unfolding fill_slots
  fill_slots-Filled size zero i slots at before =
      filled slots (subst (λ n. Rounds n slots) (let k : i ≡ size = omega arith in k) before)
  fill_slots-Filled size (suc left) i slots at before =
      elim (Result-cases (new_client (files i) endpoint options)) [
        | inr (e, bad) ↦ rw bad (refused_client i slots e (omega arith) before bad)
        | inl (c, made) ↦ elim (Bool-cases (is_empty c.record_dir)) [
          | inr records ↦
              rw made (rw records (refused_recorder i slots c (omega arith) before made records))
          | inl silent ↦ rw made (
              rw silent (
                fill_slots-Filled size left (suc i) (slots ++ c.transport ∷ []) (omega arith)
                  (next_round c before made silent)))
        ]
      ]

  wrapped_up :
      {n : ℕ} (r : Result PooledError (List (Option HttpTransport)))
      → Filled (suc n) r
      → Pooled (suc n) (r >>= λ slots. ok (with_pool slots))
  wrapped_up (err why) f = refused why f
  wrapped_up (ok _) (filled slots rounds) = pooled slots rounds

  -- `NewPooledClient` refuses a size of 0. Else the rounds go on up to the first one whose client is not
  -- made, whose error comes with the number of the round, or whose client records, which is
  -- refused. If there is none, the client has no transport of its own, and its pool has one slot
  -- for each round, with the transport of the client that this round has made, which is not nil.
  pub new_pooled_client-Pooled : (size : ℕ) → Pooled size (new_pooled_client size)
  unfolding new_pooled_client
  new_pooled_client-Pooled zero = refused_size
  new_pooled_client-Pooled (suc n) =
      wrapped_up (fill_slots (suc n) 0 [])
        (fill_slots-Filled (suc n) (suc n) 0 [] (omega arith) no_round)
