-- ===== src/Wsman/Recorder/Patterns.antt =====
-- wsman/record.go: the regular expressions. Each is a function from the byte before a position and
-- the text from there on to the length of the match at the position, 0 for none; the search goes on
-- behind a match. The letters of a text without case are those of ASCII.
use go_wsman.Common.{
  ℕ, zero, suc, ◌+◌, ◌-◌, ◌==◌, leb, Bool, false, ◌&&◌, ◌||◌, Option, none, some, List, [], ◌∷◌,
  Bytes, codes, is_digit, to_lower, expect, span_digits, is_empty, length, take, if◌then◌else◌,
}
use go_wsman.Common.Hex.{is_hex}
use go_wsman.Common.Options.{◌>>=◌}

abbrev pub Matcher : Type 0
Matcher = Option ℕ → Bytes → ℕ

-- `[A-Za-z0-9]`
abbrev pub is_alnum : ℕ → Bool
is_alnum c = is_digit c || (leb b'a' c && leb c b'z') || (leb b'A' c && leb c b'Z')

-- what `\b` looks at
abbrev pub is_word : ℕ → Bool
is_word c = is_alnum c || c == b'_'

abbrev pub before_is : (ℕ → Bool) → Option ℕ → Bool
before_is test none = false
before_is test (some c) = test c

abbrev pub next_is : (ℕ → Bool) → Bytes → Bool
next_is test [] = false
next_is test (c ∷ s) = test c

-- the length of what stands before the rest
abbrev matched : Bytes → Option Bytes → ℕ
matched s none = 0
matched s (some rest) = length s - length rest

-- `(?i)` and the quoted text
unfoldable pub expect_fold : Bytes → Bytes → Option Bytes
expect_fold [] s = some s
expect_fold (_ ∷ _) [] = none
expect_fold (x ∷ p) (c ∷ s) =
    let rest = expect_fold p s in if to_lower x == to_lower c then rest else none

unfoldable pub literal_at : Bytes → Matcher
unfolding expect_fold
literal_at v before s = matched s (expect_fold v s)

unfoldable pub take_hex : ℕ → Bytes → Option Bytes
take_hex zero s = some s
take_hex (suc n) [] = none
take_hex (suc n) (c ∷ s) = let rest = take_hex n s in if is_hex c then rest else none

-- `anonGUIDPattern`
unfoldable pub guid_at : Matcher
unfolding take_hex
guid_at before s = matched s (do
  a ← take_hex 8 s
  b ← expect (codes "-") a
  c ← take_hex 4 b
  d ← expect (codes "-") c
  e ← take_hex 4 d
  f ← expect (codes "-") e
  g ← take_hex 4 f
  h ← expect (codes "-") g
  take_hex 12 h)

-- one to three digits that no digit follows
unfoldable pub octet : Bytes → Option Bytes
octet s =
    let (digits, rest) = span_digits s in
    if leb 1 (length digits) && leb (length digits) 3 then some rest else none

-- the last octets of an address, with `\b` behind them
unfoldable pub octets : ℕ → Bytes → Option Bytes
unfolding octet
octets zero s = if next_is is_word s then none else some s
octets (suc zero) s = octet s >>= (λ rest. if next_is is_word rest then none else some rest)
octets (suc (suc n)) s = octet s >>= (λ rest. expect (codes ".") rest) >>= octets (suc n)

-- `1[6-9]|2\d|3[01]`
abbrev middle_block : Bytes → Option Bytes
middle_block (a ∷ b ∷ s) =
    if (a == b'1' && leb b'6' b && leb b b'9')
      || (a == b'2' && is_digit b)
      || (a == b'3' && (b == b'0' || b == b'1'))
    then some s
    else none
middle_block _ = none

abbrev or_else : Option Bytes → Option Bytes → Option Bytes
or_else (some r) other = some r
or_else none other = other

-- `privateIPPattern`
unfoldable pub private_ip_at : Matcher
unfolding octets
private_ip_at before s =
    if before_is is_word before
    then 0
    else matched s (
        or_else (expect (codes "10.") s >>= octets 3) (
          or_else (expect (codes "192.168.") s >>= octets 2) (
            expect (codes "172.") s >>= middle_block >>= (λ r. expect (codes ".") r) >>= octets 2)))

unfoldable pub span_alnum : Bytes → Bytes × Bytes
span_alnum [] = ([], [])
span_alnum (c ∷ s) = let (a, r) = span_alnum s in if is_alnum c then (c ∷ a, r) else ([], c ∷ s)

-- what stands behind the end of a tag
unfoldable pub behind_tag : Bytes → Option Bytes
behind_tag [] = none
behind_tag (c ∷ s) = let rest = behind_tag s in if c == b'>' then some s else rest

-- `(?:\s[^>]*)?>`
abbrev tag_end : Bytes → Option Bytes
tag_end [] = none
tag_end (c ∷ s) =
    if c == b'>'
    then some s
    else if c == b' ' || c == b'\t' || c == b'\n' || c == b'\r' || c == 12
    then behind_tag s
    else none

-- `(?:[A-Za-z0-9]+:)?`
abbrev behind_namespace : Bytes → Bytes
behind_namespace s =
    let (name, rest) = span_alnum s in
    elim (expect (codes ":") rest) [ none ↦ s | some r ↦ if is_empty name then s else r ]

-- the opening tag of an element that holds a hardware address
unfoldable pub address_tag : Bytes → Option Bytes
unfolding span_alnum behind_tag
address_tag s = do
  a ← expect (codes "<") s
  b ←
      or_else (expect (codes "PermanentAddress") (behind_namespace a))
        (expect (codes "Address") (behind_namespace a))
  tag_end b

-- `macElementPattern`
unfoldable pub mac_element_at : Matcher
unfolding address_tag take_hex
mac_element_at before s = matched s (do a ← address_tag s; b ← take_hex 12 a; expect (codes "</") b)

-- `cimClassPattern`
unfoldable pub class_at : Matcher
unfolding span_alnum
class_at before s = matched s (do
  name ←
      or_else (expect (codes "Msvm_") s)
        (or_else (expect (codes "CIM_") s) (expect (codes "Win32_") s))
  let (letters, rest) = span_alnum name
  if is_empty letters then none else some rest)

-- `FindAllString`
unfoldable pub find_texts : Matcher → ℕ → Option ℕ → Bytes → List Bytes
find_texts m skip before [] = []
find_texts m (suc skip) before (c ∷ s) = find_texts m skip (some c) s
find_texts m zero before (c ∷ s) = elim (m before (c ∷ s)) [
  | zero ↦ find_texts m 0 (some c) s
  | suc n ↦ take (suc n) (c ∷ s) ∷ find_texts m n (some c) s
]

-- a match, from its first byte to the one behind it
pub record Span : Type 0 where
  pub from : ℕ
  pub upto : ℕ

-- `FindAllStringIndex`, of a text that stands behind `at` bytes
unfoldable pub find_spans : Matcher → ℕ → ℕ → Option ℕ → Bytes → List Span
find_spans m skip at before [] = []
find_spans m (suc skip) at before (c ∷ s) = find_spans m skip (at + 1) (some c) s
find_spans m zero at before (c ∷ s) = elim (m before (c ∷ s)) [
  | zero ↦ find_spans m 0 (at + 1) (some c) s
  | suc n ↦ record { from = at; upto = at + suc n } ∷ find_spans m n (at + 1) (some c) s
]
