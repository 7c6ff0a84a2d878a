-- ===== src/Hyperv/Types/Kinds.antt =====
-- hyperv/types.go: zero-valued fields of the Go types that the structs have.
use go_wsman.Common.{false, none, [], codes, String}
use go_wsman.Hyperv.Fields.{
  string, uint16, uint32, uint64, bool, text, number, flag, scalar, pointer, slice, Field,
}

-- the zero values of the Go types `string`, `uintN`, `bool`, `*bool`, `[]string` and `[]uint16`
abbrev pub str : String → Field
str tag = record { tag = codes tag; slot = scalar string (text []) }

abbrev pub u16 : String → Field
u16 tag = record { tag = codes tag; slot = scalar uint16 (number 0) }

abbrev pub u32 : String → Field
u32 tag = record { tag = codes tag; slot = scalar uint32 (number 0) }

abbrev pub u64 : String → Field
u64 tag = record { tag = codes tag; slot = scalar uint64 (number 0) }

abbrev pub boolean : String → Field
boolean tag = record { tag = codes tag; slot = scalar bool (flag false) }

abbrev pub optional_boolean : String → Field
optional_boolean tag = record { tag = codes tag; slot = pointer bool none }

abbrev pub strs : String → Field
strs tag = record { tag = codes tag; slot = slice string [] }

abbrev pub u16s : String → Field
u16s tag = record { tag = codes tag; slot = slice uint16 [] }
