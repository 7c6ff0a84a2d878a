-- ===== src/Common/Utf8.antt =====
-- Go's utf8.DecodeRune, as far as it tells how many bytes a character has, and the characters that XML
-- allows.
use go_wsman.Common.Tests.{ltb, leb, ◌==◌, if◌then◌else◌}
use go_wsman.Common.Text.{Bytes}
use Prim.Native.Nat.{ℕ, zero, suc}
use mathlib.Core.Bool.{not, ◌||◌, true, Bool, false, ◌&&◌}
use mathlib.Core.Option.{Option, none, some}
use mathlib.Core.List.{[], ◌∷◌}

abbrev pub between : ℕ → ℕ → ℕ → Bool
between low high c = leb low c && leb c high

-- a byte behind the first one of a character
abbrev pub follows : ℕ → Bool
follows c = between 0x80 0xbf c

unfoldable pub two_bytes : ℕ → Bytes → Bool
two_bytes c (d ∷ s) = between 0xc2 0xdf c && follows d
two_bytes c s = false

-- the second byte rules out overlong forms and surrogates
unfoldable pub three_bytes : ℕ → Bytes → Bool
three_bytes c (d ∷ e ∷ s) =
    between 0xe0 0xef c
    && between (if c == 0xe0 then 0xa0 else 0x80) (if c == 0xed then 0x9f else 0xbf) d
    && follows e
three_bytes c s = false

-- the second byte rules out overlong forms and numbers above 0x10ffff
unfoldable pub four_bytes : ℕ → Bytes → Bool
four_bytes c (d ∷ e ∷ f ∷ s) =
    between 0xf0 0xf4 c
    && between (if c == 0xf0 then 0x90 else 0x80) (if c == 0xf4 then 0x8f else 0xbf) d
    && follows e
    && follows f
four_bytes c s = false

-- how many bytes follow the byte `c` in its character in front of `s`, none if it begins no character
unfoldable pub rune_rest : ℕ → Bytes → Option ℕ
rune_rest c s =
    if ltb c 0x80
    then some 0
    else if two_bytes c s
    then some 1
    else if three_bytes c s
    then some 2
    else if four_bytes c s
    then some 3
    else none

-- U+FFFE and U+FFFF behind their first byte
unfoldable pub not_a_char : ℕ → Bytes → Bool
not_a_char c (d ∷ e ∷ s) = c == 0xef && (d == 0xbf && leb 0xbe e)
not_a_char c s = false

-- the bytes of U+FFFD
abbrev pub replacement : Bytes
replacement = 0xef ∷ 0xbf ∷ 0xbd ∷ []

-- a byte that begins no character stands alone
abbrev pub or_alone : Option ℕ → ℕ
or_alone none = 0
or_alone (some n) = n

abbrev begins : Option ℕ → Bool
begins none = false
begins (some n) = true

-- the character that begins with `c` is one of those that XML allows
unfoldable pub rune_allowed : ℕ → Bytes → Bool
unfolding rune_rest not_a_char
rune_allowed c s =
    if ltb c 0x80
    then leb 0x20 c || (c == b'\t' || (c == b'\n' || c == b'\r'))
    else begins (rune_rest c s) && not (not_a_char c s)

unfoldable pub allowed_from : ℕ → Bytes → Bool
unfolding rune_allowed
allowed_from skip [] = true
allowed_from (suc skip) (c ∷ s) = allowed_from skip s
allowed_from zero (c ∷ s) = rune_allowed c s && allowed_from (or_alone (rune_rest c s)) s

-- a text is UTF-8 of characters that XML allows
unfoldable pub xml_allowed : Bytes → Bool
unfolding allowed_from
xml_allowed s = allowed_from 0 s
