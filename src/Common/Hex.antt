-- ===== src/Common/Hex.antt =====
-- Hexadecimal forms of the package fmt, and what stands in them.
use Prim.Native.Nat.{ℕ, zero, suc, ◌+◌, ◌-◌, ◌*◌, ◌/◌, ◌%◌, ◌^◌, ◌≤◌, ◌<◌}
use native.Mathlib.Nat.{pow-suc}
use mathlib.Core.Path.{◌≡◌, refl, ap, ◌∙◌}
use mathlib.Core.Logic.{◌⊎◌, inl, inr}
use mathlib.Core.Bool.{Bool, true, ◌||◌, ◌&&◌}
use mathlib.Core.List.{[], ◌∷◌, ◌++◌, append_assoc, append-nil}
use native.Mathlib.Omega.{arith}
use go_wsman.Common.Tests.{ltb, leb, if◌then◌else◌, Bool-cases}
use go_wsman.Common.Text.{Bytes, is_digit}

-- `[0-9A-Fa-f]`
abbrev pub is_hex : ℕ → Bool
is_hex c = is_digit c || (leb b'A' c && leb c b'F') || (leb b'a' c && leb c b'f')

-- the digit, with the letters from `letter` on
abbrev pub hex_digit : ℕ → ℕ → ℕ
hex_digit letter d = if ltb d 10 then b'0' + d else letter + (d - 10)

-- exactly `w` digits
unfoldable pub fixed_hex : ℕ → ℕ → ℕ → Bytes
fixed_hex letter zero n = []
fixed_hex letter (suc w) n = fixed_hex letter w (n / 16) ++ hex_digit letter (n % 16) ∷ []

-- a round for each digit, the fuel is `n` itself
hex_onto : ℕ → ℕ → ℕ → Bytes → Bytes
hex_onto letter zero n out = hex_digit letter (n % 16) ∷ out
hex_onto letter (suc f) n out =
    let rest = hex_onto letter f (n / 16) (hex_digit letter (n % 16) ∷ out) in
    if ltb n 16 then hex_digit letter n ∷ out else rest

-- the verbs `%0wx` and `%0wX`: at least `w` digits
unfoldable pub padded_hex : ℕ → ℕ → ℕ → Bytes
unfolding hex_onto fixed_hex
padded_hex letter w n = if ltb n (16 ^ w) then fixed_hex letter w n else hex_onto letter n n []

abbrev pub hex_value : ℕ → ℕ
hex_value c = if ltb c b'A' then c - b'0' else if ltb c b'a' then c - 55 else c - 87

-- the number that the digits stand for, behind those read so far
unfoldable pub read_hex : Bytes → ℕ → ℕ
read_hex [] n = n
read_hex (c ∷ s) n = read_hex s (n * 16 + hex_value c)

ltb→lt : (a b : ℕ) → ltb a b ≡ true → a < b
ltb→lt a b h = ground arith

module _ (letter : ℕ) (is_letter : (letter ≡ b'A') ⊎ (letter ≡ b'a')) where
  hex_value-hex_digit : (d : ℕ) → d < 16 → hex_value (hex_digit letter d) ≡ d
  hex_value-hex_digit d h = ground arith

  one_digit :
      (n : ℕ) (out : Bytes) → n < 16 → read_hex (hex_digit letter n ∷ out) 0 ≡ read_hex out n
  unfolding read_hex
  one_digit n out h =
      rw (hex_value-hex_digit n h) (ap (read_hex out) (let e : 0 * 16 + n ≡ n = omega arith in e))

  read_nil : (n : ℕ) → read_hex [] n ≡ n
  unfolding read_hex
  read_nil n = refl

  next :
      (n : ℕ) (out : Bytes) → read_hex (hex_digit letter (n % 16) ∷ out) (n / 16) ≡ read_hex out n
  unfolding read_hex
  next n out =
      rw (hex_value-hex_digit (n % 16) (omega arith))
        (rw (let e : n / 16 * 16 + n % 16 ≡ n = omega arith in e) refl)

  read_hex-fixed_hex :
      (w n : ℕ) (out : Bytes)
      → n < 16 ^ w
      → read_hex (fixed_hex letter w n ++ out) 0 ≡ read_hex out n
  unfolding fixed_hex
  read_hex-fixed_hex zero n out h = rw (let e : n ≡ 0 = omega arith in e) refl
  read_hex-fixed_hex (suc w) n out h = rw append_assoc (
      read_hex-fixed_hex w (n / 16) (hex_digit letter (n % 16) ∷ out) (omega (arith, pow-suc 16 w))
      ∙ next n out)

  read_hex-hex_onto :
      (f n : ℕ) (out : Bytes) → n ≤ f → read_hex (hex_onto letter f n out) 0 ≡ read_hex out n
  unfolding hex_onto
  read_hex-hex_onto zero n out h =
      ap (read_hex (hex_digit letter (n % 16) ∷ out)) (let e : 0 ≡ n / 16 = omega arith in e)
      ∙ next n out
  read_hex-hex_onto (suc f) n out h = elim (Bool-cases (ltb n 16)) [
    | inl small ↦ rw small (one_digit n out (ltb→lt n 16 small))
    | inr large ↦
        rw large (
          read_hex-hex_onto f (n / 16) (hex_digit letter (n % 16) ∷ out) (omega arith) ∙ next n out)
  ]

  -- The number is read back from its hexadecimal form.
  pub read_hex-padded_hex : (w n : ℕ) → read_hex (padded_hex letter w n) 0 ≡ n
  unfolding padded_hex
  read_hex-padded_hex w n = elim (Bool-cases (ltb n (16 ^ w))) [
    | inl fits ↦
        rw fits (rw append-nil at (read_hex-fixed_hex w n [] (ltb→lt n (16 ^ w) fits)) ∙ read_nil n)
    | inr wide ↦ rw wide (read_hex-hex_onto n n [] (omega arith) ∙ read_nil n)
  ]
