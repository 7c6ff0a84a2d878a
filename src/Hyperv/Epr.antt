-- ===== src/Hyperv/Epr.antt =====
-- hyperv/epr.go: WMI object paths and endpoint references. A map of keys is an association list;
-- both builders write its entries in the order of the sorted keys.
pub mod Path
pub mod Order
use go_wsman.Common.{
  ℕ, Bool, Option, none, some, List, [], ◌∷◌, ◌++◌, if◌then◌else◌, Bytes, codes, String, str_lt,
  cut_last, behind_first, replace_byte,
}
use go_wsman.Hyperv.Embedded.{xml_escape, quoted}

abbrev pub StringMap : Type 0
StringMap = List (Bytes × Bytes)

-- `sort.Strings` on the keys, the values beside them
unfoldable pub insert_key : Bytes × Bytes → StringMap → StringMap
insert_key e [] = e ∷ []
insert_key (k, v) ((j, w) ∷ m) =
    if str_lt j k then (j, w) ∷ insert_key (k, v) m else (k, v) ∷ (j, w) ∷ m

unfoldable pub sort_keys : StringMap → StringMap
unfolding insert_key
sort_keys [] = []
sort_keys (e ∷ m) = insert_key e (sort_keys m)

-- `wmiPathValueEscape`
unfoldable pub wmi_path_value_escape : Bytes → Bytes
wmi_path_value_escape s = replace_byte b'"' (codes "\\\"") (replace_byte b'\\' (codes "\\\\") s)

-- the namespace and the class of a resource URI
unfoldable pub split_uri : Bytes → Bytes × Bytes
split_uri uri =
    let tail : Bytes = elim (behind_first (codes "/wmi/") uri) [ some t ↦ t | none ↦ uri ] in
    elim (cut_last b'/' tail) [ some (ns, class) ↦ (ns, class) | none ↦ (tail, []) ]

-- one key of a path, behind its separator
abbrev pub path_key : ℕ → Bytes × Bytes → Bytes
path_key sep (k, v) = sep ∷ (k ++ (codes "=" ++ quoted (wmi_path_value_escape v)))

unfoldable pub more_keys : StringMap → Bytes
more_keys [] = []
more_keys (e ∷ m) = path_key b',' e ++ more_keys m

unfoldable pub path_keys : StringMap → Bytes
unfolding more_keys
path_keys [] = []
path_keys (e ∷ m) = path_key b'.' e ++ more_keys m

-- `wmiObjectPath`
unfoldable pub wmi_object_path : Bytes → StringMap → Bytes
unfolding split_uri sort_keys path_keys wmi_path_value_escape
wmi_object_path uri keys =
    let (ns, class) = split_uri uri in ns ++ (codes ":" ++ (class ++ path_keys (sort_keys keys)))

abbrev pub ns_wsman : Bytes
ns_wsman = codes "http://schemas.dmtf.org/wbem/wsman/1/wsman.xsd"

abbrev pub address_anonymous : Bytes
address_anonymous = codes "http://schemas.xmlsoap.org/ws/2004/08/addressing/role/anonymous"

unfoldable pub selector_elements : StringMap → Bytes
selector_elements [] = []
selector_elements ((k, v) ∷ m) =
    codes "<w:Selector Name="
    ++ (quoted k ++ (codes ">" ++ (xml_escape v ++ (codes "</w:Selector>" ++ selector_elements m))))

-- `buildEndpointReference`
unfoldable pub build_endpoint_reference : Bytes → StringMap → Bytes
unfolding selector_elements sort_keys
build_endpoint_reference uri selectors =
    codes "<a:Address>"
    ++ (address_anonymous
        ++ (codes "</a:Address><a:ReferenceParameters><w:ResourceURI xmlns:w="
            ++ (quoted ns_wsman
                ++ (codes ">"
                    ++ (xml_escape uri
                        ++ (codes "</w:ResourceURI><w:SelectorSet xmlns:w="
                            ++ (quoted ns_wsman
                                ++ (codes ">"
                                    ++ (selector_elements (sort_keys selectors)
                                        ++ codes "</w:SelectorSet></a:ReferenceParameters>")))))))))
