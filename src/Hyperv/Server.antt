-- ===== src/Hyperv/Server.antt =====
-- The side of the protocol client that hyperv/ calls: requests, the replies of a host that may
-- answer by all that it was asked before, and operations that stop at the first error. The clock
-- and the context of a call are asked like the host.
use go_wsman.Common.{
  ◌≡◌, refl, ◌≡◌, ℕ, Bool, List, [], ◌∷◌, Bytes, Result, ok, err, if◌then◌else◌, map_err,
}
use go_wsman.Common.Props.{Props}
use go_wsman.Common.Xml.{Token}
use go_wsman.Hyperv.Embedded.{MarshalError}
use go_wsman.Hyperv.Embedded.Parse.{EmbeddedError}
use go_wsman.Hyperv.Fields.{FieldError, Field, unmarshal_list}

-- `wsman.Param`
pub record Param : Type 0 where
  pub name : Bytes
  pub value : Bytes

-- `wsman.Selector`
pub record Selector : Type 0 where
  pub name : Bytes
  pub value : Bytes

pub data Request : Type 0 where
  invoke : Bytes → Bytes → List Param → List Selector → Request
  enumerate : Bytes → Request
  get_one : Bytes → List Selector → Request
  ctx_err : Request
  select_tick : Request

-- `wsman.InvokeResponse`; the body is kept as the tokens that a decoder makes of it
pub record InvokeResponse : Type 0 where
  pub return_value : Bytes
  pub props : Props
  pub body : List Token

pub data Reply : Type 0 where
  instances : List Props → Reply
  properties : Props → Reply
  response : InvokeResponse → Reply
  failed : Bytes → Reply
  live : Reply
  cancelled : Reply

pub data OpError : Type 0 where
  empty_argument : OpError
  nil_argument : OpError
  request_failed : Bytes → OpError
  bad_reply : OpError
  bad_field : FieldError → OpError
  bad_value : MarshalError → OpError
  bad_embedded : EmbeddedError → OpError
  unexpected_return_value : Bytes → OpError
  no_job_reference : OpError
  not_found : OpError
  ambiguous : ℕ → OpError
  out_of_range : OpError
  unsupported : OpError
  job_failed : ℕ → ℕ → OpError
  polls_failed : ℕ → OpError
  wait_cancelled : OpError
  out_of_fuel : OpError
  not_a_checkpoint : Bytes → OpError

-- An operation, from the requests made so far, the last one first, to the requests made in all
abbrev pub M : Type 0 → Type 0
M A = List Request → Result OpError A × List Request

abbrev pub after :
    {A B : Type 0} → Result OpError A × List Request → (A → M B) → Result OpError B × List Request
after (ok a, h) f = f a h
after (err e, h) f = (err e, h)

infixl 5 ◌>>=◌ ◌>>◌
abbrev pub ◌>>=◌ : {A B : Type 0} → M A → (A → M B) → M B
◌>>=◌ m f h = after (m h) f

abbrev pub ◌>>◌ : {B : Type 0} → M (Unit {0}) → M B → M B
m >> k = m >>= λ _. k

abbrev pub return : {A : Type 0} → A → M A
return a h = (ok a, h)

abbrev pub throw : {A : Type 0} → OpError → M A
throw e h = (err e, h)

-- an early return with an error
abbrev pub refuse_if : Bool → OpError → M (Unit {0})
refuse_if b e = if b then throw e else return tt

abbrev pub lift : {A : Type 0} → Result OpError A → M A
lift r h = (r, h)

-- a step whose error is looked at
abbrev pub attempt : {A : Type 0} → M A → M (Result OpError A)
attempt m h = let (r, h') = m h in (ok r, h')

abbrev pub as_instances : Reply → Result OpError (List Props)
as_instances (instances is) = ok is
as_instances (failed e) = err (request_failed e)
as_instances _ = err bad_reply

abbrev pub as_properties : Reply → Result OpError Props
as_properties (properties p) = ok p
as_properties (failed e) = err (request_failed e)
as_properties _ = err bad_reply

abbrev pub as_response : Reply → Result OpError InvokeResponse
as_response (response r) = ok r
as_response (failed e) = err (request_failed e)
as_response _ = err bad_reply

abbrev pub Host : Type 0
Host = List Request → Request → Reply

module _ (host : Host) where
  abbrev pub ask : Request → M Reply
  ask q h = (ok (host h q), q ∷ h)

  -- `wsman.Client.Invoke` and `InvokeMulti`
  unfoldable pub invoke_method : Bytes → Bytes → List Param → List Selector → M InvokeResponse
  invoke_method uri method params selectors = do
    r ← ask (invoke uri method params selectors)
    lift (as_response r)

  -- `wsman.Client.Enumerate`
  unfoldable pub enumerate_all : Bytes → M (List Props)
  enumerate_all uri = do r ← ask (enumerate uri); lift (as_instances r)

  -- `wsman.Client.Get`
  unfoldable pub get_instance : Bytes → List Selector → M Props
  get_instance uri selectors = do r ← ask (get_one uri selectors); lift (as_properties r)

-- `UnmarshalList` in an operation
abbrev pub unmarshal : Props → List Field → M (List Field)
unmarshal props schema = lift (map_err bad_field (unmarshal_list props schema))

-- the loop over instances that unmarshals each
unfoldable pub unmarshal_all : List Field → List Props → M (List (List Field))
unmarshal_all schema [] = return []
unmarshal_all schema (p ∷ ps) = do
  x ← unmarshal p schema
  xs ← unmarshal_all schema ps
  return (x ∷ xs)

-- An operation that succeeds has succeeded at its first step, and then at the rest.
pub bind_ok :
    {A B : Type 0} (m : Result OpError A × List Request) (f : A → M B) {b : B} {h' : List Request}
    → after m f ≡ (ok b, h')
    → (a : A) × (h₁ : List Request) × (m ≡ (ok a, h₁)) × (f a h₁ ≡ (ok b, h'))
bind_ok (ok a, h₁) f e = (a, h₁, refl, e)
bind_ok (err x, h₁) f e = cc
