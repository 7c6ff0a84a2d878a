-- ===== src/Wsman/Envelope.antt =====
-- wsman/envelope.go: SOAP envelopes and the options that fill them. The namespaces of
-- wsman/namespace.go are among the constants.
pub mod Wire
pub mod Roundtrip
use go_wsman.Common.{ℕ, Option, none, some, List, [], ◌∷◌, ◌++◌, Bytes, codes}

-- `Action`
pub record Action : Type 0 where
  pub must_understand : Bytes
  pub value : Bytes

-- `ResourceURI`
pub record ResourceUri : Type 0 where
  pub must_understand : Bytes
  pub value : Bytes

-- `MaxEnvelopeSize`
pub record MaxEnvelopeSize : Type 0 where
  pub must_understand : Bytes
  pub value : ℕ

-- `OperationTimeout`
pub record OperationTimeout : Type 0 where
  pub value : Bytes

-- `MessageID`
pub record MessageId : Type 0 where
  pub value : Bytes

-- `To`
pub record To : Type 0 where
  pub must_understand : Bytes
  pub value : Bytes

-- `Address`
pub record Address : Type 0 where
  pub must_understand : Bytes
  pub value : Bytes

-- `ReplyTo`
pub record ReplyTo : Type 0 where
  pub address : Address

-- `Selector`
pub record Selector : Type 0 where
  pub name : Bytes
  pub value : Bytes

-- `SelectorSet`
pub record SelectorSet : Type 0 where
  pub selectors : List Selector

-- `Header`
pub record Header : Type 0 where
  pub action : Option Action
  pub resource_uri : Option ResourceUri
  pub max_envelope_size : Option MaxEnvelopeSize
  pub operation_timeout : Option OperationTimeout
  pub message_id : Option MessageId
  pub reply_to : Option ReplyTo
  pub to : Option To
  pub selector_set : Option SelectorSet

-- `Envelope`, with the content of its `Body`
pub record Envelope : Type 0 where
  pub header : Header
  pub body : Bytes

abbrev pub empty_header : Header
empty_header = record {
  action = none;
  resource_uri = none;
  max_envelope_size = none;
  operation_timeout = none;
  message_id = none;
  reply_to = none;
  to = none;
  selector_set = none;
}

-- `Option`: the functions that make one
pub data EnvelopeOption : Type 0 where
  with_action : Bytes → EnvelopeOption
  with_resource_uri : Bytes → EnvelopeOption
  with_max_envelope_size : ℕ → EnvelopeOption
  with_operation_timeout : Bytes → EnvelopeOption
  with_message_id : Bytes → EnvelopeOption
  with_to : Bytes → EnvelopeOption
  with_reply_to : Bytes → EnvelopeOption
  with_selector : Bytes → Bytes → EnvelopeOption

abbrev must : Bytes
must = codes "true"

-- the selectors of a set that may be nil
abbrev pub selectors_of : Option SelectorSet → List Selector
selectors_of none = []
selectors_of (some s) = s.selectors

-- `WithSelector`
unfoldable pub add_selector : Selector → Option SelectorSet → Option SelectorSet
add_selector s set = some (record { selectors = selectors_of set ++ s ∷ [] })

-- what the function that an option is does to the header
unfoldable pub apply_header : EnvelopeOption → Header → Header
unfolding add_selector
apply_header (with_action v) h = record h {
  action = some (record { must_understand = must; value = v });
}
apply_header (with_resource_uri v) h = record h {
  resource_uri = some (record { must_understand = must; value = v });
}
apply_header (with_max_envelope_size n) h = record h {
  max_envelope_size = some (record { must_understand = must; value = n });
}
apply_header (with_operation_timeout v) h = record h {
  operation_timeout = some (record { value = v });
}
apply_header (with_message_id v) h = record h { message_id = some (record { value = v }) }
apply_header (with_to v) h = record h { to = some (record { must_understand = must; value = v }) }
apply_header (with_reply_to v) h = record h {
  reply_to = some (record { address = record { must_understand = must; value = v } });
}
apply_header (with_selector name v) h = record h {
  selector_set = add_selector (record { name = name; value = v }) h.selector_set;
}

-- the loop of `NewEnvelope`
unfoldable pub apply_headers : List EnvelopeOption → Header → Header
unfolding apply_header
apply_headers [] h = h
apply_headers (o ∷ os) h = apply_headers os (apply_header o h)

-- `NewEnvelope`
unfoldable pub new_envelope : List EnvelopeOption → Envelope
unfolding apply_headers
new_envelope options = record { header = apply_headers options empty_header; body = [] }

-- `SetBody`
unfoldable pub set_body : Bytes → Envelope → Envelope
set_body content env = record env { body = content }
