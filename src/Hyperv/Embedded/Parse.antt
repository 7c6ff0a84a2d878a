-- ===== src/Hyperv/Embedded/Parse.antt =====
-- hyperv/embedded.go, reading: `parseEmbeddedInstance` over the tokens of the decoder. The loop ends
-- at the first error of the decoder as it does at the end of the text.
use go_wsman.Common.{
  Bool, true, false, not, ◌||◌, List, [], ◌∷◌, ◌++◌, if◌then◌else◌, Bytes, codes, str_eq, is_empty,
  Result, ok, err, ◌>>=◌, equal_fold,
}
use go_wsman.Common.Props.{Props, append_value, resolve_nulls}
use go_wsman.Common.Xml.{Attr, Token, start, chars, stop, other, Stream}

-- `nullPlaceholder`
abbrev pub null_placeholder : Bytes
null_placeholder = 0 ∷ (codes "cim:null" ++ 0 ∷ [])

-- `resolveNullPlaceholders`
unfoldable pub resolve_null_placeholders : Props → Props
resolve_null_placeholders = resolve_nulls null_placeholder

-- `attrValue`
unfoldable pub attr_value : List Attr → Bytes → Bytes
attr_value [] name = []
attr_value (a ∷ attrs) name = if equal_fold a.local name then a.value else attr_value attrs name

pub data EmbeddedError : Type 0 where
  nested_property : EmbeddedError
  nested_instance : EmbeddedError
  no_properties : EmbeddedError

-- the variables of the loop
pub record Reader : Type 0 where
  pub props : Props
  pub cur_name : Bytes
  pub in_value : Bool
  pub have_prop : Bool
  pub in_prop : Bool
  pub val : Bytes

-- the element names that the loop tells apart
pub data Tag : Type 0 where
  property instance_tag value null_value unknown : Tag

unfoldable pub tag_of : Bytes → Tag
tag_of name =
    if str_eq name (codes "PROPERTY") || str_eq name (codes "PROPERTY.ARRAY")
    then property
    else if str_eq name (codes "INSTANCE")
    then instance_tag
    else if str_eq name (codes "VALUE")
    then value
    else if str_eq name (codes "VALUE.NULL")
    then null_value
    else unknown

-- the case `xml.StartElement`
unfoldable pub open_tag : Tag → Reader → List Attr → Result EmbeddedError Reader
open_tag property r attrs =
    if r.in_prop
    then err nested_property
    else let name = attr_value attrs (codes "NAME") in
      ok (record r { in_prop = true; cur_name = name; val = []; have_prop = not (is_empty name) })
open_tag instance_tag r attrs = if r.in_prop then err nested_instance else ok r
open_tag value r attrs = ok (record r { in_value = true })
open_tag null_value r attrs = ok (
    if r.have_prop
    then record r { props = append_value r.cur_name null_placeholder r.props }
    else r)
open_tag unknown r attrs = ok r

-- the case `xml.EndElement`
unfoldable pub close_tag : Tag → Reader → Reader
close_tag value r =
    let r' = record r { in_value = false } in
    if r.have_prop
    then record r' { props = append_value r.cur_name r.val r.props; val = [] }
    else r'
close_tag property r = record r { cur_name = []; have_prop = false; in_prop = false }
close_tag _ r = r

-- one round of the loop
unfoldable pub embedded_step : Reader → Token → Result EmbeddedError Reader
unfolding open_tag close_tag
embedded_step r (start name attrs) = open_tag (tag_of name) r attrs
embedded_step r (chars s) = ok (if r.in_value then record r { val = r.val ++ s } else r)
embedded_step r (stop name) = ok (close_tag (tag_of name) r)
embedded_step r other = ok r

unfoldable pub read_embedded : Reader → List Token → Result EmbeddedError Reader
unfolding embedded_step
read_embedded r [] = ok r
read_embedded r (t ∷ ts) = do r' ← embedded_step r t; read_embedded r' ts

abbrev pub new_reader : Reader
new_reader = record {
  props = [];
  cur_name = [];
  in_value = false;
  have_prop = false;
  in_prop = false;
  val = [];
}

abbrev pub require_props : Props → Result EmbeddedError Props
require_props [] = err no_properties
require_props (p ∷ props) = ok (p ∷ props)

-- `parseEmbeddedInstance`
unfoldable pub parse_embedded_instance : Stream → Result EmbeddedError Props
unfolding read_embedded
parse_embedded_instance s = do
  r ← read_embedded new_reader s.tokens
  require_props (resolve_null_placeholders r.props)
