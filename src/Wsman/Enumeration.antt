-- ===== src/Wsman/Enumeration.antt =====
-- wsman/client.go, `Client.Enumerate`, with `ParseEnumerateResponse` and `ParsePullResponse` of
-- wsman/enumerate.go. A server answers by all the requests so far (the last one first); an answer
-- is what `send` and `xml.Unmarshal` make of it.
pub mod Pages
use go_wsman.Common.{
  ℕ, zero, suc, Bool, true, false, Option, none, some, List, [], ◌∷◌, ◌++◌, Bytes, codes, is_empty,
  cut_last, if◌then◌else◌, Result, ok, err, ◌>>=◌,
}
use go_wsman.Common.Props.{Props}
use go_wsman.Common.Xml.{Stream}
use go_wsman.Wsman.Instances.{parse_instances}

pub data Answer (A : Type 0) : Type 0 where
  not_sent : Answer A
  fault : Answer A
  not_parsed : Answer A
  document : A → Answer A

-- the struct that `ParsePullResponse` fills; no items have no content
pub record PullDocument : Type 0 where
  pub items : Option Stream
  pub enumeration_context : Bytes
  pub end_of_sequence : Bool

pub record PullResponse : Type 0 where
  pub items : List Props
  pub enumeration_context : Bytes
  pub end_of_sequence : Bool

pub data EnumerateError : Type 0 where
  empty_query : EnumerateError
  send_failed : EnumerateError
  soap_fault : EnumerateError
  parse_failed : EnumerateError
  no_context : EnumerateError
  bad_items : EnumerateError
  too_many_pulls : EnumerateError

unfoldable pub document_of : {A : Type 0} → Answer A → Result EnumerateError A
document_of not_sent = err send_failed
document_of fault = err soap_fault
document_of not_parsed = err parse_failed
document_of (document d) = ok d

-- `ParseEnumerateResponse`
unfoldable pub parse_enumerate_response : Answer Bytes → Result EnumerateError Bytes
unfolding document_of
parse_enumerate_response a = do ctx ← document_of a; if is_empty ctx then err no_context else ok ctx

abbrev items_of : Option Stream → Result EnumerateError (List Props)
items_of none = ok []
items_of (some content) = elim (parse_instances content) [ ok is ↦ ok is | err _ ↦ err bad_items ]

-- `ParsePullResponse`
unfoldable pub parse_pull_response : Answer PullDocument → Result EnumerateError PullResponse
unfolding document_of
parse_pull_response a = do
  d ← document_of a
  items ← items_of d.items
  ok (record {
    items = items;
    enumeration_context = d.enumeration_context;
    end_of_sequence = d.end_of_sequence;
  })

pub data WsRequest : Type 0 where
  open_request : Bytes → Option Bytes → WsRequest
  pull_request : Bytes → Bytes → WsRequest

pub record Server : Type 0 where
  pub open_answer : List WsRequest → Answer Bytes
  pub pull_answer : List WsRequest → Answer PullDocument

-- `wqlWildcardResourceURI`
unfoldable pub wql_wildcard_resource_uri : Bytes → Bytes
wql_wildcard_resource_uri uri = elim (cut_last b'/' uri) [
  | some (before, _) ↦ before ++ codes "/*"
  | none ↦ uri
]

abbrev pub default_max_pull_iterations : ℕ
default_max_pull_iterations = 1000

abbrev pub Listing : Type 0
Listing = Result EnumerateError (List Props) × List WsRequest

-- the query of `WithWQL`, if it was given: `cfg.wqlFilterSet && cfg.wqlFilter == ""`
abbrev pub query_empty : Option Bytes → Bool
query_empty none = false
query_empty (some q) = is_empty q

abbrev pub pull_uri : Option Bytes → Bytes → Bytes
pull_uri none uri = uri
pull_uri (some q) uri = wql_wildcard_resource_uri uri

module _ (server : Server) where
  -- the answer to the request made last
  abbrev pub pulled : List WsRequest → Result EnumerateError PullResponse
  pulled h = parse_pull_response (server.pull_answer h)

  -- behind a pull: the end of the sequence, or the next round
  unfoldable pub after_pull :
      Result EnumerateError PullResponse
      → List Props
      → List WsRequest
      → (Bytes → List Props → Listing)
      → Listing
  after_pull (err e) all h again = (err e, h)
  after_pull (ok r) all h again =
      let next = again r.enumeration_context (all ++ r.items) in
      if r.end_of_sequence then (ok (all ++ r.items), h) else next

  -- the loop of `Enumerate` with so many rounds left
  unfoldable pub pull_loop : ℕ → Bytes → Bytes → List Props → List WsRequest → Listing
  unfolding after_pull parse_pull_response
  pull_loop zero uri ctx all h = (err too_many_pulls, h)
  pull_loop (suc left) uri ctx all h =
      let h' = pull_request uri ctx ∷ h in
      after_pull (pulled h') all h' (λ ctx' all'. pull_loop left uri ctx' all' h')

  unfoldable pub opened : Result EnumerateError Bytes → Bytes → List WsRequest → Listing
  unfolding pull_loop
  opened (err e) uri h = (err e, h)
  opened (ok ctx) uri h = pull_loop default_max_pull_iterations uri ctx [] h

  -- `Enumerate`
  unfoldable pub enumerate : Bytes → Option Bytes → List WsRequest → Listing
  unfolding opened parse_enumerate_response wql_wildcard_resource_uri
  enumerate uri query h =
      if query_empty query
      then (err empty_query, h)
      else (let h' = open_request (pull_uri query uri) query ∷ h in
          opened (parse_enumerate_response (server.open_answer h')) (pull_uri query uri) h')
