-- ===== src/Wsman/Instances.antt =====
-- wsman/enumerate.go and wsman/get.go: the properties of CIM instances, read off the tokens of an
-- XML fragment. `depth` counts up and down; the decoder delivers no end element without its start,
-- so it does not go below zero.
pub mod Trees
pub mod Parse
pub mod Extract
pub mod Lookup
use go_wsman.Common.{
  ℕ, ◌+◌, ◌-◌, ◌≡◌, Bool, true, false, not, ◌&&◌, ◌||◌, Option, none, some, List, [], ◌∷◌, ◌++◌,
  map, ◌==◌, if◌then◌else◌, Bytes, codes, str_eq, is_empty, equal_fold, trim_space, Result, ok, err,
}
use go_wsman.Common.Props.{Props, get, append_value, last_value, resolve_nulls}
use go_wsman.Common.Xml.{Attr, Token, start, chars, stop, other, Stream}

-- `xmlSchemaInstanceNS`
abbrev pub xml_schema_instance_ns : Bytes
xml_schema_instance_ns = codes "http://www.w3.org/2001/XMLSchema-instance"

-- `nullPlaceholder`
abbrev pub null_placeholder : Bytes
null_placeholder = 0 ∷ (codes "wsman:null" ++ 0 ∷ [])

-- `Instance.Property`, and that of `GetResponse` and `InvokeResponse`
unfoldable pub property : Bytes → Props → Bytes
property name props = last_value (get name props)

-- `Instance.Properties`: the last value of each key that has one
unfoldable pub properties : Props → List (Bytes × Bytes)
properties [] = []
properties ((k, []) ∷ m) = properties m
properties ((k, v ∷ vs) ∷ m) = (k, last_value (v ∷ vs)) ∷ properties m

-- `Instance.PropertiesList`: a copy of the map
unfoldable pub properties_list : Props → Props
properties_list m = map (λ (k, vs). (k, vs)) m

-- `isXSINil`: the first attribute of that name decides
unfoldable pub is_xsi_nil : List Attr → Bool
is_xsi_nil [] = false
is_xsi_nil (a ∷ attrs) =
    if str_eq a.local (codes "nil")
      && (str_eq a.space xml_schema_instance_ns || str_eq a.space (codes "xsi"))
    then equal_fold a.value (codes "true") || str_eq a.value (codes "1")
    else is_xsi_nil attrs

-- `resolveNullPlaceholders`
unfoldable pub resolve_null_placeholders : Props → Props
resolve_null_placeholders = resolve_nulls null_placeholder

-- The variables of the loop of `parseInstances`; `current` is `none` for a nil pointer.
pub record InstanceReader : Type 0 where
  pub depth : ℕ
  pub instances : List Props
  pub current : Option Props
  pub prop : Bytes
  pub last : Bytes
  pub is_nil : Bool

-- the value that an end element at depth 2 adds, if any
unfoldable pub add_property : Bytes → Bytes → Bool → Props → Props
add_property prop last is_nil props =
    if not (is_empty last)
    then append_value prop last props
    else if is_nil
    then append_value prop null_placeholder props
    else props

-- the case `xml.CharData`: the last text that is not white space
unfoldable pub keep_text : Bytes → Bytes → Bytes
keep_text last s = let v = trim_space s in if is_empty v then last else v

unfoldable pub start_element : Option Props → InstanceReader → Bytes → List Attr → InstanceReader
start_element current r name attrs =
    let r' = record r { depth = r.depth + 1 } in
    if r.depth + 1 == 1
    then record r' { current = some [] }
    else if r.depth + 1 == 2
    then elim current [
      | none ↦ r'
      | some _ ↦ record r' { prop = name; last = []; is_nil = is_xsi_nil attrs }
    ]
    else r'

unfoldable pub char_data : Option Props → InstanceReader → Bytes → InstanceReader
char_data none r s = r
char_data (some _) r s = if is_empty r.prop then r else record r { last = keep_text r.last s }

unfoldable pub end_element : Option Props → InstanceReader → InstanceReader
end_element none r = record r { depth = r.depth - 1 }
end_element (some props) r =
    let r' = record r { depth = r.depth - 1 } in
    if r.depth == 2 && not (is_empty r.prop)
    then record r' {
      current = some (add_property r.prop r.last r.is_nil props);
      prop = [];
      last = [];
      is_nil = false;
    }
    else if r.depth == 1
    then record r' {
      instances = r.instances ++ resolve_null_placeholders props ∷ [];
      current = none;
    }
    else r'

-- one round of the loop of `parseInstances`
unfoldable pub instance_step : InstanceReader → Token → InstanceReader
unfolding start_element char_data end_element
instance_step r (start name attrs) = start_element r.current r name attrs
instance_step r (chars s) = char_data r.current r s
instance_step r (stop name) = end_element r.current r
instance_step r other = r

unfoldable pub read_instances : InstanceReader → List Token → InstanceReader
unfolding instance_step
read_instances r [] = r
read_instances r (t ∷ ts) = read_instances (instance_step r t) ts

abbrev pub new_reader : InstanceReader
new_reader = record {
  depth = 0;
  instances = [];
  current = none;
  prop = [];
  last = [];
  is_nil = false;
}

pub data ParseError : Type 0 where
  bad_token : ParseError

-- `parseInstances`
unfoldable pub parse_instances : Stream → Result ParseError (List Props)
unfolding read_instances
parse_instances s =
    if s.at_eof then ok (read_instances new_reader s.tokens).instances else err bad_token

-- The variables of the loop of `extractProperties`
pub record PropertyReader : Type 0 where
  pub depth : ℕ
  pub props : Props
  pub element : Bytes
  pub last : Bytes
  pub is_nil : Bool

-- one round of the loop of `extractProperties`
unfoldable pub property_step : PropertyReader → Token → PropertyReader
property_step r (start name attrs) =
    let r' = record r { depth = r.depth + 1 } in
    if r.depth + 1 == 2
    then record r' { element = name; last = []; is_nil = is_xsi_nil attrs }
    else r'
property_step r (chars s) = if is_empty r.element then r else record r { last = keep_text r.last s }
property_step r (stop name) =
    let r' = record r { depth = r.depth - 1 } in
    if r.depth == 2 && not (is_empty r.element)
    then record r' {
      props = add_property r.element r.last r.is_nil r.props;
      element = [];
      last = [];
      is_nil = false;
    }
    else r'
property_step r other = r

unfoldable pub read_properties : PropertyReader → List Token → PropertyReader
unfolding property_step
read_properties r [] = r
read_properties r (t ∷ ts) = read_properties (property_step r t) ts

-- `extractProperties`: the map that the caller passes in, filled
unfoldable pub extract_properties : Stream → Props → Result ParseError Props
unfolding read_properties
extract_properties s props =
    if s.at_eof
    then ok (
        resolve_null_placeholders
          (read_properties
            (record { depth = 0; props = props; element = []; last = []; is_nil = false })
            s.tokens).props)
    else err bad_token
