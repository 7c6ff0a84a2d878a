-- ===== src/Wsman/Requests.antt =====
-- wsman/get.go, delete.go, put.go, create.go and invoke.go: the requests, as envelopes that are then
-- marshalled. `uuid` stands for what google/uuid returns.
pub mod Received
use go_wsman.Common.{
  ℕ, Bool, true, false, Option, none, some, List, [], ◌∷◌, ◌++◌, map, Bytes, codes, String,
  is_empty, cut_last, if◌then◌else◌, Result, ok, err,
}
use go_wsman.Hyperv.Epr.{sort_keys}
use go_wsman.Hyperv.Server.{Param}
use go_wsman.Wsman.Envelope.{
  Selector, Envelope, EnvelopeOption, with_action, with_resource_uri, with_max_envelope_size,
  with_operation_timeout, with_message_id, with_to, with_reply_to, with_selector, new_envelope,
  set_body,
}

-- the errors of the builders
pub data RequestError : Type 0 where
  no_properties : RequestError
  no_method_name : RequestError

-- `NSTransfer + "/Get"` and the like
abbrev pub transfer_action : String → Bytes
transfer_action name = codes "http://schemas.xmlsoap.org/ws/2004/09/transfer/" ++ codes name

-- `AddressAnonymous`
abbrev pub address_anonymous : Bytes
address_anonymous = codes "http://schemas.xmlsoap.org/ws/2004/08/addressing/role/anonymous"

abbrev pub max_envelope_size : ℕ
max_envelope_size = 153600

-- the options that every request has
unfoldable pub request_options : Bytes → Bytes → Bytes → Bytes → List EnvelopeOption
request_options action resource_uri endpoint uuid =
    with_action action
    ∷ with_resource_uri resource_uri
    ∷ with_to endpoint
    ∷ with_reply_to address_anonymous
    ∷ with_message_id (codes "uuid:" ++ uuid)
    ∷ with_max_envelope_size max_envelope_size
    ∷ with_operation_timeout (codes "PT60S")
    ∷ []

abbrev pub selector_option : Selector → EnvelopeOption
selector_option s = with_selector s.name s.value

-- the envelope behind the loop over the selectors
unfoldable pub request_envelope : Bytes → Bytes → Bytes → Bytes → List Selector → Envelope
unfolding request_options new_envelope
request_envelope action resource_uri endpoint uuid selectors =
    new_envelope
      (request_options action resource_uri endpoint uuid ++ map selector_option selectors)

-- what stands behind the last `/` of the URI
unfoldable pub class_name : Bytes → Bytes
class_name resource_uri = elim (cut_last b'/' resource_uri) [
  | none ↦ resource_uri
  | some (_, class) ↦ class
]

-- `<p:%s>%s</p:%s>`
unfoldable pub property_elements : List (Bytes × Bytes) → Bytes
property_elements [] = []
property_elements ((k, v) ∷ ps) =
    codes "<p:"
    ++ (k ++ (codes ">" ++ (v ++ (codes "</p:" ++ (k ++ (codes ">" ++ property_elements ps))))))

-- the element that holds them, with the white space around it
unfoldable pub wrapped : Bytes → Bytes → Bytes → Bytes
wrapped element resource_uri inside =
    codes "\n    <p:"
    ++ (element
        ++ (codes " xmlns:p=\""
            ++ (resource_uri
                ++ (codes "\">" ++ (inside ++ (codes "</p:" ++ (element ++ codes ">\n  ")))))))

abbrev pub pair_of : Param → Bytes × Bytes
pair_of p = (p.name, p.value)

module _ (endpoint uuid : Bytes) where
  -- `BuildGetRequest`
  unfoldable pub build_get_request : Bytes → List Selector → Envelope
  unfolding request_envelope
  build_get_request resource_uri selectors =
      request_envelope (transfer_action "Get") resource_uri endpoint uuid selectors

  -- `BuildDeleteRequest`
  unfoldable pub build_delete_request : Bytes → List Selector → Envelope
  unfolding request_envelope
  build_delete_request resource_uri selectors =
      request_envelope (transfer_action "Delete") resource_uri endpoint uuid selectors

  abbrev property_body : Bytes → List (Bytes × Bytes) → Bytes
  property_body resource_uri properties =
      wrapped (class_name resource_uri) resource_uri (property_elements (sort_keys properties))

  -- `BuildPutRequest`
  unfoldable pub build_put_request :
      Bytes → List (Bytes × Bytes) → List Selector → Result RequestError Envelope
  unfolding request_envelope set_body wrapped property_elements
  build_put_request resource_uri [] selectors = err no_properties
  build_put_request resource_uri (p ∷ ps) selectors = ok (
      set_body (property_body resource_uri (p ∷ ps))
        (request_envelope (transfer_action "Put") resource_uri endpoint uuid selectors))

  -- `BuildCreateRequest`
  unfoldable pub build_create_request : Bytes → List (Bytes × Bytes) → Result RequestError Envelope
  unfolding request_envelope set_body wrapped property_elements
  build_create_request resource_uri [] = err no_properties
  build_create_request resource_uri (p ∷ ps) = ok (
      set_body (property_body resource_uri (p ∷ ps))
        (request_envelope (transfer_action "Create") resource_uri endpoint uuid []))

  -- `BuildInvokeRequestMulti`
  unfoldable pub build_invoke_request_multi :
      Bytes → Bytes → List Param → List Selector → Result RequestError Envelope
  unfolding request_envelope set_body wrapped property_elements
  build_invoke_request_multi resource_uri method_name params selectors =
      if is_empty method_name
      then err no_method_name
      else ok (
          set_body
            (wrapped (method_name ++ codes "_INPUT") resource_uri
              (property_elements (map pair_of params)))
            (request_envelope (resource_uri ++ b'/' ∷ method_name) resource_uri endpoint uuid
              selectors))

  abbrev param_of : Bytes × Bytes → Param
  param_of (k, v) = record { name = k; value = v }

  -- `BuildInvokeRequest`, whose parameters are a map
  unfoldable pub build_invoke_request :
      Bytes → Bytes → List (Bytes × Bytes) → List Selector → Result RequestError Envelope
  unfolding build_invoke_request_multi
  build_invoke_request resource_uri method_name params selectors =
      build_invoke_request_multi resource_uri method_name (map param_of (sort_keys params))
        selectors
