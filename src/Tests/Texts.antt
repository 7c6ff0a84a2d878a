-- ===== src/Tests/Texts.antt =====
-- hyperv/embedded.go and epr.go on short texts.
use mathlib.Core.List.{flat_map}
use go_wsman.Common.Utf8.{xml_allowed}
use go_wsman.Common.{Bytes, refl, str_eq, [], ◌≡◌, some, ◌∷◌, ◌++◌, codes, false}
use go_wsman.Hyperv.Embedded.{cim_value_escape, cdata_wrap}
use go_wsman.Hyperv.Embedded.Escape.{numeric_rune, runes, cim_value_escape-flat_map}
use go_wsman.Hyperv.Embedded.Cdata.{read_document, read_document-cdata_wrap}
use go_wsman.Hyperv.Epr.Order.{SameMap, swapped, wmi_object_path-SameMap}
use go_wsman.Hyperv.Epr.{
  StringMap, wmi_object_path, build_endpoint_reference, wmi_path_value_escape,
}
use go_wsman.Hyperv.Epr.Path.{read_quoted, read_quoted-wmi_path_value_escape}

-- an ampersand, U+3042, U+FFFF and a byte that begins no character
abbrev mixed : Bytes
mixed = codes "a&" ++ 0xe3 ∷ 0x81 ∷ 0x82 ∷ 0xef ∷ 0xbf ∷ 0xbf ∷ 0xff ∷ []

cim_value_escape-flat_map_example : cim_value_escape mixed ≡ flat_map numeric_rune (runes 0 mixed)
cim_value_escape-flat_map_example = cim_value_escape-flat_map mixed

escape_run :
    cim_value_escape mixed
    ≡ codes "a&#38;" ++ 0xe3 ∷ 0x81 ∷ 0x82 ∷ 0xef ∷ 0xbf ∷ 0xbd ∷ 0xef ∷ 0xbf ∷ 0xbd ∷ []
unfolding cim_value_escape go_wsman.Common.has_prefix go_wsman.Common.Utf8.two_bytes
    go_wsman.Common.Utf8.three_bytes go_wsman.Common.Utf8.four_bytes
escape_run = refl

read_document-cdata_wrap_example : read_document (cdata_wrap (codes "x]]>y")) ≡ some (codes "x]]>y")
unfolding xml_allowed
read_document-cdata_wrap_example = read_document-cdata_wrap (codes "x]]>y") refl refl

read_quoted-wmi_path_value_escape_example :
    read_quoted false (wmi_path_value_escape (codes "a\\b\"c") ++ b'"' ∷ codes ",k=")
    ≡ some (codes "a\\b\"c", codes ",k=")
read_quoted-wmi_path_value_escape_example =
    read_quoted-wmi_path_value_escape (codes "a\\b\"c") (codes ",k=")

abbrev of_switch : StringMap
of_switch = (codes "Name", codes "g") ∷ (codes "CreationClassName", codes "c") ∷ []

abbrev of_switch' : StringMap
of_switch' = (codes "CreationClassName", codes "c") ∷ (codes "Name", codes "g") ∷ []

exchanged : SameMap of_switch of_switch'
unfolding str_eq
exchanged = swapped (codes "Name") (codes "g") (codes "CreationClassName") (codes "c") refl

wmi_object_path-SameMap_example :
    (wmi_object_path (codes "h/wmi/r/C") of_switch ≡ wmi_object_path (codes "h/wmi/r/C") of_switch')
    × (build_endpoint_reference (codes "h/wmi/r/C") of_switch
        ≡ build_endpoint_reference (codes "h/wmi/r/C") of_switch')
wmi_object_path-SameMap_example = wmi_object_path-SameMap (codes "h/wmi/r/C") exchanged
