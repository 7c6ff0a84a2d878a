-- ===== src/Hyperv/Types/Slots.antt =====
-- hyperv/types.go: reading and assigning the fields of a struct by the name of their property.
use go_wsman.Common.{
  ℕ, Option, none, some, List, [], ◌∷◌, Bytes, codes, String, str_eq, if◌then◌else◌,
}
use go_wsman.Hyperv.CimTag.{parse_cim_tag}
use go_wsman.Hyperv.Fields.{string, uint16, text, number, Slot, scalar, Field}

-- The field of a property; a struct has one field for each.
unfoldable pub slot_of : Bytes → List Field → Option Slot
slot_of name [] = none
slot_of name (f ∷ fs) = if str_eq (parse_cim_tag f.tag).0 name then some f.slot else slot_of name fs

-- the assignment of a field
unfoldable pub put : String → Slot → List Field → List Field
put name slot [] = []
put name slot (f ∷ fs) =
    if str_eq (parse_cim_tag f.tag).0 (codes name)
    then record f { slot = slot } ∷ fs
    else f ∷ put name slot fs

abbrev pub slot_text : Option Slot → Bytes
slot_text (some (scalar k (text s))) = s
slot_text _ = []

abbrev pub slot_number : Option Slot → ℕ
slot_number (some (scalar k (number n))) = n
slot_number _ = 0

-- the value of a string field, and of a number field
unfoldable pub text_of : String → List Field → Bytes
text_of name fs = slot_text (slot_of (codes name) fs)

unfoldable pub number_of : String → List Field → ℕ
number_of name fs = slot_number (slot_of (codes name) fs)

-- the assignment of a string field, and of a `uint16` field
unfoldable pub put_text : String → Bytes → List Field → List Field
put_text name v fs = put name (scalar string (text v)) fs

unfoldable pub put_number : String → ℕ → List Field → List Field
put_number name n fs = put name (scalar uint16 (number n)) fs
