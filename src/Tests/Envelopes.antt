-- ===== src/Tests/Envelopes.antt =====
-- Envelopes, requests and answers that are written out.
use go_wsman.Common.Utf8.{xml_allowed}
use go_wsman.Common.{
  ◌||◌, Option, ◌==◌, if◌then◌else◌, ◌≡◌, ◌≤◌, refl, true, false, some, none, List, [], ◌∷◌, Bytes,
  codes, ok, Result, arith, leb→le,
}
use go_wsman.Common.Props.{Props, get, last_value}
use go_wsman.Common.Xml.{start, chars, stop}
use go_wsman.Hyperv.Server.{Param}
use go_wsman.Wsman.Envelope.{
  Selector, Envelope, with_action, with_selector, with_max_envelope_size, new_envelope,
}
use go_wsman.Wsman.Envelope.Wire.{XmlTexts, received, marshal_xml, max_int}
use go_wsman.Wsman.Envelope.Roundtrip.{KeepsTexts, Sendable, received-marshal_xml}
use go_wsman.Wsman.Responses.{Reply, InvokeResponse, parse_invoke_response}
use go_wsman.Wsman.Responses.Outputs.{Answered, parse_invoke_response-Answered}

abbrev envelope : Envelope
envelope = new_envelope (
    with_action (codes "a")
    ∷ with_selector (codes "k") (codes "v")
    ∷ with_max_envelope_size 9
    ∷ with_selector (codes "l") []
    ∷ [])

nine_fits : 9 ≤ max_int
nine_fits = leb→le 9 max_int refl

-- bodies begin with an element or with a new line, or are empty
abbrev element : Bytes → Option Bytes
element [] = some []
element (c ∷ s) = if (c == b'<' || c == b'\n') then some (c ∷ s) else none

abbrev texts : XmlTexts
texts = record { read_text = λ t. if xml_allowed t then some t else none; read_inner = element }

keeps : KeepsTexts texts
keeps t allowed = rw allowed refl

envelope_fit : Sendable texts envelope
unfolding new_envelope marshal_xml xml_allowed go_wsman.Common.Decimal.format_uint
envelope_fit = (
  (((refl, tt), refl), (((refl, tt), refl), ((((refl, tt), refl), (((refl, tt), refl), tt)), tt))),
  refl,
)

received-marshal_xml_example : received texts envelope ≡ some envelope
unfolding new_envelope
received-marshal_xml_example = received-marshal_xml texts keeps envelope nine_fits envelope_fit

abbrev endpoint : Bytes
endpoint = codes "http://h"

abbrev uuid : Bytes
uuid = codes "u"

abbrev uri : Bytes
uri = codes "http://x/Msvm"

abbrev params : List Param
params = record { name = codes "P"; value = codes "1" } ∷ []

abbrev selectors : List Selector
selectors =
    record { name = codes "k"; value = codes "v" }
    ∷ record { name = codes "a"; value = codes "b" }
    ∷ []

abbrev reply : Reply
reply = record {
  text = codes "<s:Body>";
  fault = none;
  body = some (record {
    tokens =
        start (codes "Output") []
        ∷ start (codes "Job") []
        ∷ chars (codes "J")
        ∷ stop (codes "Job")
        ∷ start (codes "ReturnValue") []
        ∷ chars (codes "0")
        ∷ stop (codes "ReturnValue")
        ∷ stop (codes "Output")
        ∷ [];
    at_eof = true;
  });
}

abbrev answer : InvokeResponse
answer = record {
  return_value = codes "0";
  properties = (codes "Job", codes "J" ∷ []) ∷ [];
  body_content =
      start (codes "Output") []
      ∷ start (codes "Job") []
      ∷ chars (codes "J")
      ∷ stop (codes "Job")
      ∷ start (codes "ReturnValue") []
      ∷ chars (codes "0")
      ∷ stop (codes "ReturnValue")
      ∷ stop (codes "Output")
      ∷ [];
}

answer_run : parse_invoke_response reply ≡ ok answer
unfolding parse_invoke_response go_wsman.Common.behind_first go_wsman.Common.expect
    go_wsman.Wsman.Instances.extract_properties get
    go_wsman.Wsman.Instances.resolve_null_placeholders go_wsman.Common.Props.resolve_nulls
    go_wsman.Wsman.Instances.add_property go_wsman.Wsman.Instances.keep_text
    go_wsman.Common.trim_space go_wsman.Common.Props.append_value go_wsman.Common.str_eq last_value
answer_run = refl

parse_invoke_response-Answered_example : Answered reply answer
parse_invoke_response-Answered_example = parse_invoke_response-Answered reply answer answer_run
