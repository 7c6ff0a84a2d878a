-- ===== src/Hyperv/Epr/Path.antt =====
-- hyperv/epr.go: a value in a WMI object path can be read back from its quotes.
use go_wsman.Common.{
  ℕ, ◌≡◌, refl, ap, ◌∙◌, Bool, true, false, Option, none, some, [], ◌∷◌, ◌++◌, ◌==◌, Bytes, codes,
  if◌then◌else◌, replace_byte, Bool-cases, inl, inr, arith, append_assoc,
}
use go_wsman.Hyperv.Epr.{wmi_path_value_escape}

-- what one byte of a value becomes
abbrev pub escaped_byte : ℕ → Bytes
escaped_byte c = if c == b'\\' then codes "\\\\" else if c == b'"' then codes "\\\"" else c ∷ []

escape-cons :
    (c : ℕ) (s : Bytes) → wmi_path_value_escape (c ∷ s) ≡ escaped_byte c ++ wmi_path_value_escape s
unfolding wmi_path_value_escape replace_byte
escape-cons c s = ground arith

abbrev push : ℕ → Option (Bytes × Bytes) → Option (Bytes × Bytes)
push c none = none
push c (some (v, rest)) = some (c ∷ v, rest)

-- A reader of a quoted value: up to the first quotation mark that no backslash precedes. It gives
-- the value and what stands behind the mark. `escaped` says that a backslash stands before.
unfoldable pub read_quoted : Bool → Bytes → Option (Bytes × Bytes)
read_quoted escaped [] = none
read_quoted true (c ∷ s) = push c (read_quoted false s)
read_quoted false (c ∷ s) =
    let value = push c (read_quoted false s) in
    let behind = read_quoted true s in
    if c == b'\\' then behind else if c == b'"' then some ([], s) else value

read_escaped :
    (c : ℕ) (t : Bytes) → read_quoted false (escaped_byte c ++ t) ≡ push c (read_quoted false t)
unfolding read_quoted
read_escaped c t = elim (Bool-cases (c == b'\\')) [
  | inl e ↦ rw e (rw (let k : c ≡ b'\\' = ground arith in k) refl)
  | inr e ↦ rw e (elim (Bool-cases (c == b'"')) [
    | inl q ↦ rw q (rw (let k : c ≡ b'"' = ground arith in k) refl)
    | inr q ↦ rw q (rw e (rw q refl))
  ])
]

-- A value that `wmiPathValueEscape` escaped, with a quotation mark and any text behind it, is read
-- back as the value and that text: no value can end its quotes early, and no two values look alike.
pub read_quoted-wmi_path_value_escape :
    (s rest : Bytes) → read_quoted false (wmi_path_value_escape s ++ b'"' ∷ rest) ≡ some (s, rest)
unfolding read_quoted wmi_path_value_escape replace_byte
read_quoted-wmi_path_value_escape [] rest = refl
read_quoted-wmi_path_value_escape (c ∷ s) rest = rw (escape-cons c s) (
    ap (read_quoted false) (append_assoc (escaped_byte c) (wmi_path_value_escape s) (b'"' ∷ rest))
    ∙ read_escaped c (wmi_path_value_escape s ++ b'"' ∷ rest)
    ∙ ap (push c) (read_quoted-wmi_path_value_escape s rest))
