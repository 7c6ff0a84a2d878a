-- ===== src/Hyperv/Integration/Settings.antt =====
-- hyperv/integration.go: the embedded instance that `SetIntegrationServiceEnabled` sends.
use go_wsman.Common.{
  ◌≡◌, refl, Bool, true, false, ◌∷◌, ◌++◌, Bytes, String, codes, ok, str_eq, cut, split, member,
  str_lt, ℕ, has_prefix,
}
use go_wsman.Common.Decimal.{format_uint}
use go_wsman.Hyperv.CimTag.{parse_cim_tag}
use go_wsman.Hyperv.Embedded.{
  escape_byte, xml_escape, named_ref, replace_refs, is_zero, cim_type_name, stringify, property_tag,
  cim_value_escape, slice_values, marshal_slice_field, wire_value, marshal_scalar, marshal_field,
  marshal_fields,
}
use go_wsman.Hyperv.Types.{put, put_number, put_text}
use go_wsman.Hyperv.Integration.{enabled_settings}

-- a property with its CIM type, as the host reads it
abbrev pub property_element : String → String → Bytes → Bytes
property_element name type value =
    codes "<PROPERTY NAME=\""
    ++ (codes name
        ++ (codes "\" TYPE=\""
            ++ (codes type
                ++ (codes "\">"
                    ++ ((codes "<VALUE>" ++ (value ++ codes "</VALUE>")) ++ codes "</PROPERTY>")))))

abbrev pub state_digit : Bool → Bytes
state_digit true = codes "2"
state_digit false = codes "3"

-- For an InstanceID that is not empty, both states are sent: the instance has the InstanceID, escaped,
-- and EnabledState, which is 2 for on and 3 for off, and no other property.
pub marshal_fields-enabled_settings :
    (c : ℕ) (id : Bytes) (enabled : Bool)
    → marshal_fields (enabled_settings (c ∷ id) enabled)
      ≡ ok (
          property_element "InstanceID" "string" (cim_value_escape (c ∷ id))
          ++ property_element "EnabledState" "uint16" (state_digit enabled))
unfolding is_zero cim_type_name stringify property_tag put slice_values marshal_slice_field
    wire_value marshal_scalar marshal_field marshal_fields enabled_settings put_number put_text
    parse_cim_tag str_eq cut split member str_lt format_uint cim_value_escape replace_refs named_ref
    xml_escape escape_byte has_prefix
marshal_fields-enabled_settings c id true = refl
marshal_fields-enabled_settings c id false = refl
