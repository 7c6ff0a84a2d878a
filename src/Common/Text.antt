-- ===== src/Common/Text.antt =====
-- Go strings as lists of bytes, with the functions of the package strings that the code calls.
use Prim.Native.Nat.{◌+◌, ℕ, zero, suc}
use Prim.Native.Char.{code}
use Prim.Native.String.{String}
use mathlib.Core.Path.{◌≡◌, refl}
use mathlib.Core.Logic.{◌↔◌}
use mathlib.Core.Bool.{Bool, true, false, ◌&&◌, ◌||◌}
use mathlib.Core.Option.{Option, none, some}
use mathlib.Core.List.{reverse, List, [], ◌∷◌, ◌++◌}
use native.Mathlib.Omega.{arith}
use go_wsman.Common.Tests.{ltb, leb, ◌==◌, if◌then◌else◌}

abbrev pub Bytes : Type 0
Bytes = List ℕ

-- The bytes of an ASCII literal.
abbrev pub codes : String → Bytes
codes String.[] = []
codes (String.◌∷◌ c s) = code c ∷ codes s

-- `a == b` on strings
unfoldable pub str_eq : Bytes → Bytes → Bool
str_eq [] [] = true
str_eq (x ∷ xs) (y ∷ ys) = x == y && str_eq xs ys
str_eq _ _ = false

pub str_eq_iff : (a b : Bytes) → (str_eq a b ≡ true) ↔ (a ≡ b)
unfolding str_eq
str_eq_iff (x ∷ a) (y ∷ b) = ground (arith, str_eq_iff a b)
str_eq_iff _ _ = ground arith

pub str_eq_refl : (a : Bytes) → str_eq a a ≡ true
str_eq_refl a = (str_eq_iff a a).1 refl

abbrev pub is_empty : Bytes → Bool
is_empty [] = true
is_empty (_ ∷ _) = false

-- `strings.HasPrefix`
unfoldable pub has_prefix : Bytes → Bytes → Bool
has_prefix s [] = true
has_prefix [] (_ ∷ _) = false
has_prefix (x ∷ s) (y ∷ p) = x == y && has_prefix s p

abbrev pub is_digit : ℕ → Bool
is_digit c = leb b'0' c && leb c b'9'

abbrev pub is_space : ℕ → Bool
is_space c = c == b' ' || (leb b'\t' c && leb c b'\r')

-- `strings.Cut` at one byte: what stands before the first one, and what stands behind it
unfoldable pub cut : ℕ → Bytes → Bytes × Bytes
cut sep [] = ([], [])
cut sep (c ∷ s) = let (a, b) = cut sep s in if c == sep then ([], s) else (c ∷ a, b)

-- puts a byte in front of the first part
abbrev pub push_first : ℕ → List Bytes → List Bytes
push_first c [] = (c ∷ []) ∷ []
push_first c (p ∷ ps) = (c ∷ p) ∷ ps

-- `strings.Split` at one byte
unfoldable pub split : ℕ → Bytes → List Bytes
split sep [] = [] ∷ []
split sep (c ∷ s) = let rest = split sep s in if c == sep then [] ∷ rest else push_first c rest

-- `any` of a loop that sets a flag
unfoldable pub member : Bytes → List Bytes → Bool
member s [] = false
member s (x ∷ xs) = str_eq x s || member s xs

-- Patterns: a literal, exactly `n` digits, and as many digits as there are.
unfoldable pub expect : Bytes → Bytes → Option Bytes
expect [] s = some s
expect (_ ∷ _) [] = none
expect (x ∷ p) (c ∷ s) = if c == x then expect p s else none

unfoldable pub take_digits : ℕ → Bytes → Option (Bytes × Bytes)
take_digits zero s = some ([], s)
take_digits (suc n) [] = none
take_digits (suc n) (c ∷ s) =
    if is_digit c
    then elim (take_digits n s) [ none ↦ none | some (a, r) ↦ some (c ∷ a, r) ]
    else none

unfoldable pub span_digits : Bytes → Bytes × Bytes
span_digits [] = ([], [])
span_digits (c ∷ s) = let (a, r) = span_digits s in if is_digit c then (c ∷ a, r) else ([], c ∷ s)

abbrev pub to_lower : ℕ → ℕ
to_lower c = if leb b'A' c && leb c b'Z' then c + 32 else c

-- `strings.EqualFold` on ASCII text. The letters k and s have a third form outside ASCII.
unfoldable pub equal_fold : Bytes → Bytes → Bool
equal_fold [] [] = true
equal_fold (x ∷ xs) (y ∷ ys) = to_lower x == to_lower y && equal_fold xs ys
equal_fold _ _ = false

-- the UTF-8 forms of U+0085, U+00A0, U+1680, U+2000 to U+200A, U+2028, U+2029, U+202F, U+205F, U+3000
abbrev wide_space : ℕ → ℕ → ℕ → Bool
wide_space a b c =
    (a == 0xe1 && b == 0x9a && c == 0x80)
    || (a == 0xe2
        && b == 0x80
        && (c == 0xa8 || c == 0xa9 || c == 0xaf || (leb 0x80 c && leb c 0x8a)))
    || (a == 0xe2 && b == 0x81 && c == 0x9f)
    || (a == 0xe3 && b == 0x80 && c == 0x80)

abbrev narrow_space : ℕ → ℕ → Bool
narrow_space a b = a == 0xc2 && (b == 0x85 || b == 0xa0)

-- A text without the white space at its front, and a reversed text without that at its end
trim_front : Bytes → Bytes
trim_front [] = []
trim_front (a ∷ []) = if is_space a then [] else a ∷ []
trim_front (a ∷ b ∷ []) =
    let rest = trim_front (b ∷ []) in
    if is_space a then rest else if narrow_space a b then [] else a ∷ b ∷ []
trim_front (a ∷ b ∷ c ∷ s) =
    let one = trim_front (b ∷ c ∷ s) in
    let two = trim_front (c ∷ s) in
    let three = trim_front s in
    if is_space a
    then one
    else if narrow_space a b
    then two
    else if wide_space a b c
    then three
    else a ∷ b ∷ c ∷ s

trim_back : Bytes → Bytes
trim_back [] = []
trim_back (a ∷ []) = if is_space a then [] else a ∷ []
trim_back (a ∷ b ∷ []) =
    let rest = trim_back (b ∷ []) in
    if is_space a then rest else if narrow_space b a then [] else a ∷ b ∷ []
trim_back (a ∷ b ∷ c ∷ s) =
    let one = trim_back (b ∷ c ∷ s) in
    let two = trim_back (c ∷ s) in
    let three = trim_back s in
    if is_space a
    then one
    else if narrow_space b a
    then two
    else if wide_space c b a
    then three
    else a ∷ b ∷ c ∷ s

-- `strings.TrimSpace`
unfoldable pub trim_space : Bytes → Bytes
unfolding trim_front trim_back
trim_space s = reverse (trim_back (reverse (trim_front s)))

-- the order of Go strings
unfoldable pub str_lt : Bytes → Bytes → Bool
str_lt [] [] = false
str_lt [] (_ ∷ _) = true
str_lt (_ ∷ _) [] = false
str_lt (x ∷ xs) (y ∷ ys) = ltb x y || (x == y && str_lt xs ys)

-- `strings.LastIndex` of one byte: what stands up to it and behind it, if it occurs
unfoldable pub cut_last : ℕ → Bytes → Option (Bytes × Bytes)
cut_last sep [] = none
cut_last sep (c ∷ s) = elim (cut_last sep s) [
  | some (a, b) ↦ some (c ∷ a, b)
  | none ↦ if c == sep then some ([], s) else none
]

-- `strings.Index` of a text that is not empty: what stands behind its first occurrence
unfoldable pub behind_first : Bytes → Bytes → Option Bytes
behind_first p [] = none
behind_first p (c ∷ s) =
    let rest = behind_first p s in elim (expect p (c ∷ s)) [ some r ↦ some r | none ↦ rest ]

-- `strings.ReplaceAll` of one byte
unfoldable pub replace_byte : ℕ → Bytes → Bytes → Bytes
replace_byte old new [] = []
replace_byte old new (c ∷ s) =
    let rest = replace_byte old new s in if c == old then new ++ rest else c ∷ rest
