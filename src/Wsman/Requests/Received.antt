-- ===== src/Wsman/Requests/Received.antt =====
-- wsman/get.go, delete.go and invoke.go: the requests as they are read from their XML.
use go_wsman.Common.{Option, none, some, List, [], ◌∷◌, ◌++◌, map, Bytes, codes}
use go_wsman.Hyperv.Server.{Param}
use go_wsman.Wsman.Envelope.{Selector, SelectorSet, Header, Envelope, selectors_of}
use go_wsman.Wsman.Requests.{
  address_anonymous, max_envelope_size, request_envelope, property_elements, wrapped, pair_of,
}

-- the set with more selectors at its end
abbrev with_more : Option SelectorSet → List Selector → Option SelectorSet
with_more set [] = set
with_more set (s ∷ ss) = some (record { selectors = selectors_of set ++ s ∷ ss })

abbrev pub set_of : List Selector → Option SelectorSet
set_of [] = none
set_of (s ∷ ss) = some (record { selectors = s ∷ ss })

abbrev pub must_true : Bytes
must_true = codes "true"

-- the header that a request is meant to have
abbrev pub request_header : Bytes → Bytes → Bytes → Bytes → List Selector → Header
request_header action resource_uri endpoint uuid selectors = record {
  action = some (record { must_understand = must_true; value = action });
  resource_uri = some (record { must_understand = must_true; value = resource_uri });
  max_envelope_size = some (record { must_understand = must_true; value = max_envelope_size });
  operation_timeout = some (record { value = codes "PT60S" });
  message_id = some (record { value = codes "uuid:" ++ uuid });
  reply_to =
      some (record { address = record { must_understand = must_true; value = address_anonymous } });
  to = some (record { must_understand = must_true; value = endpoint });
  selector_set = set_of selectors;
}

module _ (endpoint uuid : Bytes) where
  -- the envelope of Invoke: the body has the element of the method with the parameters in their order
  abbrev pub invoke_envelope : Bytes → Bytes → List Param → List Selector → Envelope
  invoke_envelope resource_uri method params selectors =
      record (request_envelope (resource_uri ++ b'/' ∷ method) resource_uri endpoint uuid
        selectors) {
          body =
              wrapped (method ++ codes "_INPUT") resource_uri
                (property_elements (map pair_of params));
        }

  abbrev pub read_as : Bytes → Bytes → List Selector → Bytes → Option Envelope
  read_as action resource_uri selectors body =
      some (record {
        header = request_header action resource_uri endpoint uuid selectors;
        body = body;
      })
