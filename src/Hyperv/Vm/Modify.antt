-- ===== src/Hyperv/Vm/Modify.antt =====
-- hyperv/vm.go: what `clearReadOnlyForModify` leaves of the settings.
use go_wsman.Common.{
  ◌≡◌, refl, sym, ap, ◌∙◌, Bool, true, false, ◌||◌, Option, none, some, List, [], ◌∷◌, Bytes, codes,
  String, str_eq, str_eq_iff, member, if◌then◌else◌, Bool-cases, inl, inr, arith, map,
}
use go_wsman.Hyperv.CimTag.{parse_cim_tag}
use go_wsman.Hyperv.Fields.{Field, Slot, scalar, string, text}
use go_wsman.Hyperv.Types.{slot_of, put, put_text}
use go_wsman.Hyperv.Vm.{clear_read_only_for_modify}

abbrev pub blank : Slot
blank = scalar string (text [])

-- the properties that are read only
abbrev pub read_only : List String
read_only =
    "Description" ∷ "Caption" ∷ "Version" ∷ "Parent" ∷ "CreationTime" ∷ "LogDataRoot"
    ∷ "SuspendDataRoot" ∷ "ConfigurationFile" ∷ "ConfigurationDataRoot" ∷ "ConfigurationID"
    ∷ "VirtualSystemSubType" ∷ "VirtualSystemType" ∷ "VirtualSystemIdentifier" ∷ []

-- a field, if there is one, is blank if the test says so
abbrev pub blank_if : Bool → Option Slot → Option Slot
blank_if b none = none
blank_if b (some s) = if b then some blank else some s

other_key :
    (tag key name : Bytes)
    → str_eq tag key ≡ false
    → str_eq tag name ≡ true
    → str_eq key name ≡ false
other_key tag key name away same = elim (Bool-cases (str_eq key name)) [
  | inr e ↦ e
  | inl e ↦
      (let k : key ≡ name = (str_eq_iff key name).0 e in
        let t : tag ≡ name = (str_eq_iff tag name).0 same in
        let again : str_eq tag key ≡ true = (str_eq_iff tag key).1 (t ∙ sym k) in cc)
]

slot_of-put :
    (name : Bytes) (key : String) (fs : List Field)
    → slot_of name (put_text key [] fs) ≡ blank_if (str_eq (codes key) name) (slot_of name fs)
unfolding slot_of put put_text
slot_of-put name key [] = refl
slot_of-put name key (f ∷ fs) = elim (Bool-cases (str_eq (parse_cim_tag f.tag).0 (codes key))) [
  | inl here ↦ rw here (ground (arith, (str_eq_iff (parse_cim_tag f.tag).0 (codes key)).0 here))
  | inr away ↦ rw away (elim (Bool-cases (str_eq (parse_cim_tag f.tag).0 name)) [
    | inl e ↦ rw e (rw (other_key (parse_cim_tag f.tag).0 (codes key) name away e) refl)
    | inr e ↦ rw e (slot_of-put name key fs)
  ])
]

blank_if_both : (a b : Bool) (s : Option Slot) → blank_if a (blank_if b s) ≡ blank_if (a || b) s
blank_if_both true b none = refl
blank_if_both false b none = refl
blank_if_both true true (some s) = refl
blank_if_both true false (some s) = refl
blank_if_both false true (some s) = refl
blank_if_both false false (some s) = refl

-- `put_text` with an empty text for each of the names
clear_all : List String → List Field → List Field
clear_all [] sd = sd
clear_all (k ∷ ks) sd = put_text k [] (clear_all ks sd)

slot_of-clear_all :
    (name : Bytes) (ks : List String) (sd : List Field)
    → slot_of name (clear_all ks sd) ≡ blank_if (member name (map codes ks)) (slot_of name sd)
unfolding clear_all member
slot_of-clear_all name [] sd = elim (slot_of name sd) as (λ x. x ≡ blank_if false x) [
  | none ↦ refl
  | some s ↦ refl
]
slot_of-clear_all name (k ∷ ks) sd =
    slot_of-put name k (clear_all ks sd)
    ∙ ap (blank_if (str_eq (codes k) name)) (slot_of-clear_all name ks sd)
    ∙ blank_if_both (str_eq (codes k) name) (member name (map codes ks)) (slot_of name sd)

-- `clearReadOnlyForModify` blanks the fields of the 13 properties that are read only, and leaves
-- the field of every other property as it is, the key `InstanceID` and the two data roots that can
-- be written among them.
pub slot_of-clear_read_only_for_modify :
    (name : Bytes) (sd : List Field)
    → slot_of name (clear_read_only_for_modify sd)
      ≡ blank_if (member name (map codes read_only)) (slot_of name sd)
unfolding clear_read_only_for_modify clear_all
slot_of-clear_read_only_for_modify name sd = slot_of-clear_all name read_only sd
