-- ===== src/Hyperv/Fields.antt =====
-- hyperv/unmarshal.go: structs with `cim` tags as lists of fields, and `UnmarshalList`. A field
-- carries what `reflect` says of it: its tag, its kind and its value.
use go_wsman.Common.{
  ℕ, ◌-◌, ◌^◌, Bool, true, false, ◌&&◌, Option, none, some, List, [], ◌∷◌, leb, if◌then◌else◌,
  Bytes, codes, str_eq, Result, ok, err, map, ◌>>=◌,
}
use go_wsman.Common.Decimal.{parse_uint}
use go_wsman.Common.Props.{Props, get}
use go_wsman.Hyperv.CimTag.{parse_cim_tag}

-- the kinds of `reflect` that the code tells apart
pub data Kind : Type 0 where
  string uint8 uint16 uint32 uint64 int64 bool : Kind

pub data Scalar : Type 0 where
  text : Bytes → Scalar
  number : ℕ → Scalar
  flag : Bool → Scalar

-- A field holds a value, a pointer to one, or a slice.
pub data Slot : Type 0 where
  scalar : Kind → Scalar → Slot
  pointer : Kind → Option Scalar → Slot
  slice : Kind → List Scalar → Slot

pub record Field : Type 0 where
  pub tag : Bytes
  pub slot : Slot

pub data FieldError : Type 0 where
  bad_number : FieldError
  bad_bool : FieldError
  unsupported_kind : FieldError

abbrev to_upper : ℕ → ℕ
to_upper c = if leb b'a' c && leb c b'z' then c - 32 else c

-- `strconv.ParseUint(raw, 10, bits)` for the largest value of the width
abbrev pub set_number : ℕ → Bytes → Result FieldError Scalar
set_number max raw = elim (parse_uint max raw) [ none ↦ err bad_number | some n ↦ ok (number n) ]

-- `setField`, on ASCII text
unfoldable pub set_field : Kind → Bytes → Result FieldError Scalar
set_field string raw = ok (text raw)
set_field uint16 raw = set_number (2 ^ 16 - 1) raw
set_field uint32 raw = set_number (2 ^ 32 - 1) raw
set_field uint64 raw = set_number (2 ^ 64 - 1) raw
set_field bool raw =
    if str_eq (map to_upper raw) (codes "TRUE")
    then ok (flag true)
    else if str_eq (map to_upper raw) (codes "FALSE")
    then ok (flag false)
    else err bad_bool
set_field _ raw = err unsupported_kind

-- `setSliceField`
unfoldable pub set_slice_field : Kind → List Bytes → Result FieldError (List Scalar)
set_slice_field k [] = ok []
set_slice_field k (raw ∷ values) = do
  v ← set_field k raw
  vs ← set_slice_field k values
  ok (v ∷ vs)

-- the body of the loop of `UnmarshalList` for a field that has values
unfoldable pub set_slot : Slot → Bytes → List Bytes → Result FieldError Slot
unfolding set_field set_slice_field
set_slot (slice k _) raw values = do vs ← set_slice_field k (raw ∷ values); ok (slice k vs)
set_slot (scalar k _) raw values = do v ← set_field k raw; ok (scalar k v)
set_slot (pointer k _) raw values = do v ← set_field k raw; ok (pointer k (some v))

-- one round of the loop; a tag with no name, and a property with no value, leave the field alone
unfoldable pub unmarshal_field : Bytes → List Bytes → Field → Result FieldError Field
unfolding set_slot
unmarshal_field [] values f = ok f
unmarshal_field (_ ∷ _) [] f = ok f
unmarshal_field (_ ∷ _) (raw ∷ values) f = do
  slot ← set_slot f.slot raw values
  ok (record f { slot = slot })

-- `UnmarshalList`
unfoldable pub unmarshal_list : Props → List Field → Result FieldError (List Field)
unfolding unmarshal_field
unmarshal_list props [] = ok []
unmarshal_list props (f ∷ fs) = do
  let name = (parse_cim_tag f.tag).0
  g ← unmarshal_field name (get name props) f
  gs ← unmarshal_list props fs
  ok (g ∷ gs)
