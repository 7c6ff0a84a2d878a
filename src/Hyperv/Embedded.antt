-- ===== src/Hyperv/Embedded.antt =====
-- hyperv/embedded.go, writing: the CIM-XML text of an embedded instance. `fmt`'s `%q` is written out for
-- the names that the code quotes, which are identifiers.
pub mod Escape
pub mod Cdata
pub mod Parse
use go_wsman.Common.{
  take, ℕ, zero, suc, ◌+◌, ◌-◌, ◌≡◌, refl, Bool, true, false, not, ◌&&◌, ◌||◌, Option, none, some,
  List, [], ◌∷◌, ◌++◌, ltb, leb, ◌==◌, if◌then◌else◌, Bytes, codes, str_eq, is_empty, has_prefix,
  Result, ok, err, ◌>>=◌, map_err, String, equal_fold,
}
use go_wsman.Common.Utf8.{replacement, rune_rest, not_a_char}
use go_wsman.Common.Decimal.{format_uint}
use go_wsman.Common.Props.{Props, append_value, resolve_nulls}
use go_wsman.Common.Xml.{Attr, Token, start, chars, stop, other, Stream}
use go_wsman.Hyperv.CimTag.{parse_cim_tag, IntervalError, iso8601_to_cim_interval}
use go_wsman.Hyperv.Fields.{
  Kind, string, uint8, uint16, uint32, uint64, int64, bool, Scalar, text, number, flag, Slot,
  scalar, pointer, slice, Field,
}

pub data MarshalError : Type 0 where
  unsupported_kind : MarshalError
  datetime_array : MarshalError
  bad_interval : IntervalError → MarshalError

-- `xml.EscapeText` of one ASCII character; a control character becomes U+FFFD
unfoldable pub escape_byte : ℕ → Bytes
escape_byte c =
    if c == b'"'
    then codes "&#34;"
    else if c == b'\''
    then codes "&#39;"
    else if c == b'&'
    then codes "&amp;"
    else if c == b'<'
    then codes "&lt;"
    else if c == b'>'
    then codes "&gt;"
    else if c == b'\t'
    then codes "&#x9;"
    else if c == b'\n'
    then codes "&#xA;"
    else if c == b'\r'
    then codes "&#xD;"
    else if ltb c 0x20
    then replacement
    else c ∷ []

-- a character of several bytes, or a byte that begins none
abbrev pub wide_rune : ℕ → Bytes → Option ℕ → Bytes × ℕ
wide_rune c s none = (replacement, 0)
wide_rune c s (some n) = (if not_a_char c s then replacement else c ∷ take n s, n)

-- `xml.EscapeText` of the character that begins with `c`, and the number of its other bytes: what is
-- not UTF-8 is replaced byte by byte, and U+FFFE and U+FFFF are replaced
unfoldable pub escape_rune : ℕ → Bytes → Bytes × ℕ
unfolding escape_byte rune_rest not_a_char
escape_rune c s = if ltb c 0x80 then (escape_byte c, 0) else wide_rune c s (rune_rest c s)

-- the loop of `xml.EscapeText`, behind `skip` bytes of the last character
unfoldable pub escape_from : ℕ → Bytes → Bytes
unfolding escape_rune
escape_from skip [] = []
escape_from (suc skip) (c ∷ s) = escape_from skip s
escape_from zero (c ∷ s) = let (piece, more) = escape_rune c s in piece ++ escape_from more s

-- `xmlEscape`
unfoldable pub xml_escape : Bytes → Bytes
unfolding escape_from
xml_escape s = escape_from 0 s

-- the replacement that `namedToNumericRefs` makes at a place, and the bytes that it skips there
unfoldable pub named_ref : Bytes → Option (Bytes × ℕ)
named_ref s =
    if has_prefix s (codes "&amp;")
    then some (codes "&#38;", 4)
    else if has_prefix s (codes "&lt;")
    then some (codes "&#60;", 3)
    else if has_prefix s (codes "&gt;")
    then some (codes "&#62;", 3)
    else none

-- `namedToNumericRefs.Replace` behind `skip` bytes of the last match
unfoldable pub replace_refs : ℕ → Bytes → Bytes
unfolding named_ref
replace_refs skip [] = []
replace_refs (suc skip) (c ∷ s) = replace_refs skip s
replace_refs zero (c ∷ s) = elim (named_ref (c ∷ s)) [
  | some (ref, skip) ↦ ref ++ replace_refs skip s
  | none ↦ c ∷ replace_refs zero s
]

-- `cimValueEscape`
unfoldable pub cim_value_escape : Bytes → Bytes
unfolding xml_escape replace_refs
cim_value_escape s = replace_refs 0 (xml_escape s)

-- `cimTypeName`
unfoldable pub cim_type_name : Kind → Result MarshalError Bytes
cim_type_name string = ok (codes "string")
cim_type_name uint8 = ok (codes "uint8")
cim_type_name uint16 = ok (codes "uint16")
cim_type_name uint32 = ok (codes "uint32")
cim_type_name uint64 = ok (codes "uint64")
cim_type_name bool = ok (codes "boolean")
cim_type_name int64 = err unsupported_kind

-- `stringify`; an `int64` is refused before, by `cimTypeName`
unfoldable pub stringify : Scalar → Bytes
stringify (text s) = s
stringify (number n) = format_uint n
stringify (flag true) = codes "true"
stringify (flag false) = codes "false"

-- `reflect.Value.IsZero`
unfoldable pub is_zero : Scalar → Bool
is_zero (text s) = is_empty s
is_zero (number n) = n == 0
is_zero (flag b) = not b

abbrev pub quoted : Bytes → Bytes
quoted s = b'"' ∷ (s ++ b'"' ∷ [])

-- the opening tag of a property, with its two attributes
unfoldable pub property_tag : Bytes → Bytes → Bytes → Bytes
property_tag element tag type =
    b'<'
    ∷ (element
        ++ (codes " NAME=" ++ (quoted tag ++ (codes " TYPE=" ++ (quoted type ++ codes ">")))))

abbrev value_element : Bytes → Bytes
value_element val = codes "<VALUE>" ++ (cim_value_escape val ++ codes "</VALUE>")

-- the loop of `marshalSliceField`
unfoldable pub slice_values : List Scalar → Bytes
slice_values [] = []
slice_values (v ∷ vs) = value_element (stringify v) ++ slice_values vs

-- `marshalSliceField`
unfoldable pub marshal_slice_field : Kind → List Scalar → Bytes → Bool → Result MarshalError Bytes
unfolding slice_values property_tag
marshal_slice_field k [] tag is_datetime = ok []
marshal_slice_field k (v ∷ vs) tag true = err datetime_array
marshal_slice_field k (v ∷ vs) tag false = do
  type ← cim_type_name k
  ok (
      property_tag (codes "PROPERTY.ARRAY") tag type
      ++ (codes "<VALUE.ARRAY>"
          ++ (slice_values (v ∷ vs) ++ codes "</VALUE.ARRAY></PROPERTY.ARRAY>")))

-- the value and the TYPE that are written: those of a datetime are converted
unfoldable pub wire_value : Bytes → Scalar → Bool → Result MarshalError (Bytes × Bytes)
wire_value type v false = ok (type, stringify v)
wire_value type v true = do
  val ← map_err bad_interval (iso8601_to_cim_interval (stringify v))
  ok (codes "datetime", val)

-- `marshalField` behind the tests for what is not sent
unfoldable pub marshal_scalar : Kind → Scalar → Bytes → Bool → Result MarshalError Bytes
unfolding wire_value property_tag
marshal_scalar k v tag is_datetime = do
  name ← cim_type_name k
  (type, val) ← wire_value name v is_datetime
  ok (property_tag (codes "PROPERTY") tag type ++ (value_element val ++ codes "</PROPERTY>"))

-- `marshalField`
unfoldable pub marshal_field : Slot → Bytes → Bool → Result MarshalError Bytes
unfolding marshal_scalar marshal_slice_field
marshal_field (slice k vs) tag is_datetime = marshal_slice_field k vs tag is_datetime
marshal_field (pointer k none) tag is_datetime = ok []
marshal_field (pointer k (some v)) tag is_datetime = marshal_scalar k v tag is_datetime
marshal_field (scalar k v) tag is_datetime =
    if is_zero v then ok [] else marshal_scalar k v tag is_datetime

-- the loop of `marshalEmbeddedInstance`
unfoldable pub marshal_fields : List Field → Result MarshalError Bytes
unfolding marshal_field
marshal_fields [] = ok []
marshal_fields (f ∷ fs) = do
  let (tag, is_datetime) = parse_cim_tag f.tag
  one ← if is_empty tag then ok [] else marshal_field f.slot tag is_datetime
  rest ← marshal_fields fs
  ok (one ++ rest)

-- `strings.ReplaceAll(s, "]]>", "]]]]><![CDATA[>")` behind `skip` bytes of the last match
unfoldable pub split_cdata : ℕ → Bytes → Bytes
split_cdata skip [] = []
split_cdata (suc skip) (c ∷ s) = split_cdata skip s
split_cdata zero (c ∷ s) =
    let split_here = codes "]]]]><![CDATA[>" ++ split_cdata 2 s in
    let copy = c ∷ split_cdata 0 s in if has_prefix (c ∷ s) (codes "]]>") then split_here else copy

-- `cdataWrap`
unfoldable pub cdata_wrap : Bytes → Bytes
unfolding split_cdata
cdata_wrap s = codes "<![CDATA[" ++ (split_cdata 0 s ++ codes "]]>")

-- `marshalEmbeddedInstance`
unfoldable pub marshal_embedded_instance : List Field → Bytes → Result MarshalError Bytes
unfolding marshal_fields cdata_wrap
marshal_embedded_instance fields class_name = do
  body ← marshal_fields fields
  ok (
      cdata_wrap (
        codes "<INSTANCE CLASSNAME="
        ++ (quoted class_name ++ (codes ">" ++ (body ++ codes "</INSTANCE>")))))
