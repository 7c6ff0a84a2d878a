-- ===== src/Wsman/Responses.antt =====
-- wsman/fault.go, get.go, put.go, create.go, delete.go and invoke.go: the readers of the answers. A
-- `Reply` is the text that came back, with what encoding/xml makes of it.
pub mod Outputs
use go_wsman.Common.{
  Bool, true, false, not, ◌&&◌, Option, none, some, List, [], ◌∷◌, ◌++◌, Bytes, codes, str_eq,
  is_empty, trim_space, behind_first, if◌then◌else◌, Result, ok, err, map_err,
}
use go_wsman.Common.Props.{Props, get, last_value}
use go_wsman.Common.Xml.{Attr, Token, Stream, start, chars, stop, other}
use go_wsman.Common.Results.{◌>>=◌, ◌>>◌}
use go_wsman.Wsman.Output.{assign}
use go_wsman.Wsman.Instances.{ParseError, extract_properties}

-- `Fault`
pub record Fault : Type 0 where
  pub code : Bytes
  pub subcode : Bytes
  pub reason : Bytes
  pub detail : Bytes

-- `soapFault`; the subcode is a pointer
pub record SoapFault : Type 0 where
  pub code : Bytes
  pub subcode : Option Bytes
  pub reason : Bytes
  pub detail : Bytes

pub data ResponseError : Type 0 where
  not_parsed : ResponseError
  no_fault : ResponseError
  soap_fault : Fault → ResponseError
  bad_body : ResponseError

-- an answer: its text, the fault that `xml.Unmarshal` finds, or an error, and the tokens of the body
-- of `UnmarshalEnvelope`, or an error
pub record Reply : Type 0 where
  pub text : Bytes
  pub fault : Option (Option SoapFault)
  pub body : Option Stream

abbrev pub found : Option Bytes → Bool
found none = false
found (some rest) = true

-- `IsFault`
unfoldable pub is_fault : Bytes → Bool
is_fault s = found (behind_first (codes ":Fault") s)

abbrev or_empty : Option Bytes → Bytes
or_empty none = []
or_empty (some s) = s

-- `ParseFault`
unfoldable pub parse_fault : Reply → Result ResponseError Fault
parse_fault r = elim r.fault [
  | none ↦ err not_parsed
  | some none ↦ err no_fault
  | some (some f) ↦
      ok (record {
        code = f.code;
        subcode = or_empty f.subcode;
        reason = f.reason;
        detail = f.detail;
      })
]

-- `Fault.Error`
unfoldable pub fault_text : Fault → Bytes
fault_text f =
    if is_empty f.subcode
    then codes "WS-Man Fault [" ++ (f.code ++ (codes "]: " ++ f.reason))
    else codes "WS-Man Fault ["
      ++ (f.code ++ (codes "/" ++ (f.subcode ++ (codes "]: " ++ f.reason))))

-- `InvokeResponse`
pub record InvokeResponse : Type 0 where
  pub return_value : Bytes
  pub properties : Props
  pub body_content : List Token

-- `CreateResponse`
pub record CreateResponse : Type 0 where
  pub resource_uri : Bytes
  pub selectors : List (Bytes × Bytes)

abbrev pub thrown : Result ResponseError Fault → Result ResponseError (Unit {0})
thrown (ok f) = err (soap_fault f)
thrown (err e) = err e

-- the test for a fault in front of every reader, and the whole of `ParseDeleteResponse`
unfoldable pub parse_delete_response : Reply → Result ResponseError (Unit {0})
unfolding is_fault parse_fault
parse_delete_response r = if is_fault r.text then thrown (parse_fault r) else ok tt

abbrev pub body_of : Option Stream → Result ResponseError Stream
body_of none = err not_parsed
body_of (some s) = ok s

abbrev pub bad : ParseError → ResponseError
bad e = bad_body

-- `ParseGetResponse`, and `ParsePutResponse`, which calls it
unfoldable pub parse_get_response : Reply → Result ResponseError Props
unfolding parse_delete_response
parse_get_response r = do
  parse_delete_response r
  s ← body_of r.body
  map_err bad (extract_properties s [])

-- `delete`
unfoldable pub remove : Bytes → Props → Props
remove k [] = []
remove k ((j, vs) ∷ m) = let rest = remove k m in if str_eq j k then rest else (j, vs) ∷ rest

abbrev pub return_value_name : Bytes
return_value_name = codes "ReturnValue"

abbrev pub taken : List Bytes → Props → List Token → InvokeResponse
taken [] props tokens = record { return_value = []; properties = props; body_content = tokens }
taken (v ∷ vs) props tokens = record {
  return_value = last_value (v ∷ vs);
  properties = remove return_value_name props;
  body_content = tokens;
}

-- the end of `ParseInvokeResponse`
unfoldable pub take_return_value : Props → List Token → InvokeResponse
unfolding remove
take_return_value props tokens = taken (get return_value_name props) props tokens

-- `ParseInvokeResponse`
unfoldable pub parse_invoke_response : Reply → Result ResponseError InvokeResponse
unfolding parse_delete_response take_return_value
parse_invoke_response r = do
  parse_delete_response r
  s ← body_of r.body
  props ← map_err bad (extract_properties s [])
  ok (take_return_value props s.tokens)

-- the variables of `extractEndpointReference`
pub record ReferenceReader : Type 0 where
  pub response : CreateResponse
  pub in_resource_uri : Bool
  pub in_selector : Bool
  pub current_selector_name : Bytes

-- the loop over the attributes of a selector
unfoldable pub name_attribute : List Attr → Bytes → Bytes
name_attribute [] name = name
name_attribute (a ∷ attrs) name =
    let with_it = name_attribute attrs a.value in
    let without = name_attribute attrs name in
    if str_eq a.local (codes "Name") then with_it else without

abbrev with_uri : Bool → Bytes → CreateResponse → CreateResponse
with_uri false v c = c
with_uri true v c = record c { resource_uri = v }

abbrev with_selector : Bool → Bytes → Bytes → CreateResponse → CreateResponse
with_selector false name v c = c
with_selector true name v c = record c { selectors = assign name v c.selectors }

-- `xml.CharData`
unfoldable pub reference_text : Bytes → ReferenceReader → ReferenceReader
reference_text v r = if is_empty v then r else record r {
  response =
      with_selector (r.in_selector && not (is_empty r.current_selector_name))
        r.current_selector_name v (with_uri r.in_resource_uri v r.response);
}

-- one token
unfoldable pub reference_step : ReferenceReader → Token → ReferenceReader
unfolding name_attribute reference_text
reference_step r (start name attrs) =
    if str_eq name (codes "ResourceURI")
    then record r { in_resource_uri = true }
    else if str_eq name (codes "Selector")
    then record r {
      in_selector = true;
      current_selector_name = name_attribute attrs r.current_selector_name;
    }
    else r
reference_step r (chars s) = reference_text (trim_space s) r
reference_step r (stop name) =
    if str_eq name (codes "ResourceURI")
    then record r { in_resource_uri = false }
    else if str_eq name (codes "Selector")
    then record r { in_selector = false; current_selector_name = [] }
    else r
reference_step r other = r

unfoldable pub read_reference : ReferenceReader → List Token → ReferenceReader
unfolding reference_step
read_reference r [] = r
read_reference r (t ∷ ts) = read_reference (reference_step r t) ts

-- `extractEndpointReference`
unfoldable pub extract_endpoint_reference : Stream → Result ResponseError CreateResponse
unfolding read_reference
extract_endpoint_reference s =
    if s.at_eof
    then ok
        (read_reference
          (record {
            response = record { resource_uri = []; selectors = [] };
            in_resource_uri = false;
            in_selector = false;
            current_selector_name = [];
          })
          s.tokens).response
    else err bad_body

-- `ParseCreateResponse`
unfoldable pub parse_create_response : Reply → Result ResponseError CreateResponse
unfolding parse_delete_response extract_endpoint_reference
parse_create_response r = do
  parse_delete_response r
  s ← body_of r.body
  extract_endpoint_reference s
