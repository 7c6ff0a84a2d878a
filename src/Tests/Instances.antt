-- ===== src/Tests/Instances.antt =====
-- wsman/enumerate.go and wsman/get.go on small fragments.
use go_wsman.Common.{
  equal_fold, str_eq, trim_space, ◌≡◌, refl, codes, ok, List, [], ◌∷◌, Bytes, All,
}
use go_wsman.Common.Props.{resolve_nulls, append_value, get}
use go_wsman.Common.Resolve.{collect, named, resolved, Clean}
use go_wsman.Common.Xml.{node_tokens, Attr, Nodes, element, text, nil, cons, stream_of}
use go_wsman.Wsman.Instances.{
  is_xsi_nil, keep_text, add_property, instance_step, null_placeholder, resolve_null_placeholders,
  parse_instances, extract_properties,
}
use go_wsman.Wsman.Instances.Trees.{instances_of}
use go_wsman.Wsman.Instances.Parse.{parse_instances-stream_of}
use go_wsman.Wsman.Instances.Extract.{all_entries, extract_properties-stream_of}
use go_wsman.Wsman.Instances.Lookup.{get-resolve_null_placeholders, resolve_null_placeholders-Clean}

abbrev nil_attr : List Attr
nil_attr = record { space = codes "xsi"; local = codes "nil"; value = codes "true" } ∷ []

abbrev leaf : Bytes → Bytes → Nodes → Nodes
leaf name s = cons (element name [] (cons (text s) nil))

-- an instance with an array that has a NULL in its middle, and a NULL scalar
abbrev fragment : Nodes
fragment =
    cons
      (element (codes "p:Msvm") [] (
        leaf (codes "IP") (codes " 10 ") (
          cons (element (codes "IP") nil_attr nil)
            (leaf (codes "IP") (codes "11") (cons (element (codes "Parent") nil_attr nil) nil)))))
      nil

fragment_run :
    parse_instances (stream_of fragment)
    ≡ ok (((codes "IP", codes "10" ∷ [] ∷ codes "11" ∷ []) ∷ []) ∷ [])
unfolding parse_instances node_tokens instance_step add_property keep_text trim_space append_value
    str_eq is_xsi_nil equal_fold resolve_null_placeholders resolve_nulls
fragment_run = refl

parse_instances-stream_of_example :
    parse_instances (stream_of fragment) ≡ ok (instances_of fragment)
parse_instances-stream_of_example = parse_instances-stream_of fragment

extract_properties-stream_of_example :
    extract_properties (stream_of fragment) []
    ≡ ok (resolve_null_placeholders (collect [] (all_entries fragment)))
extract_properties-stream_of_example = extract_properties-stream_of fragment []

abbrev pairs : List (Bytes × Bytes)
pairs = (codes "IP", codes "10") ∷ (codes "IP", null_placeholder) ∷ []

get-resolve_null_placeholders_example :
    get (codes "IP") (resolve_null_placeholders (collect [] pairs))
    ≡ resolved null_placeholder (named (codes "IP") pairs)
get-resolve_null_placeholders_example = get-resolve_null_placeholders (codes "IP") pairs

resolve_null_placeholders-Clean_example :
    All (Clean null_placeholder) (resolve_null_placeholders (collect [] pairs))
resolve_null_placeholders-Clean_example = resolve_null_placeholders-Clean (collect [] pairs)
