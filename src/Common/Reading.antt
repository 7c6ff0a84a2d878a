-- ===== src/Common/Reading.antt =====
-- What the digit readers accept, and that they read the decimal forms back.
use Prim.Native.Nat.{ℕ, zero, suc, ◌+◌, ◌/◌, ◌%◌, ◌^◌, ◌≤◌, ◌<◌}
use native.Mathlib.Nat.{pow-suc}
use mathlib.Core.Path.{◌≡◌, refl, ◌∙◌}
use mathlib.Core.Bool.{true, false}
use mathlib.Core.Option.{some}
use mathlib.Core.List.{[], ◌∷◌, ◌++◌, append_assoc, append-nil, concat-ne-nil}
use mathlib.Core.Logic.{inl, inr}
use native.Mathlib.Omega.{arith}
use go_wsman.Common.Tests.{Option-cases}
use go_wsman.Common.Lists.{length, all, length-append}
use go_wsman.Common.Text.{Bytes, is_digit, expect, take_digits, span_digits}
use go_wsman.Common.Decimal.{scan, parse_uint, parse_uint-scan, fixed, padded}

abbrev pub AllDigits : Bytes → Type 0
AllDigits s = all is_digit s ≡ true

pub AllDigits-append : (a b : Bytes) → AllDigits a → AllDigits b → AllDigits (a ++ b)
AllDigits-append [] b ha hb = hb
AllDigits-append (c ∷ a) b ha hb = ground (arith, AllDigits-append a b)

pub expect-append : (p s : Bytes) → expect p (p ++ s) ≡ some s
unfolding expect
expect-append [] s = refl
expect-append (c ∷ p) s = ground (arith, expect-append p s)

pub take_digits-append :
    (a rest : Bytes) → AllDigits a → take_digits (length a) (a ++ rest) ≡ some (a, rest)
unfolding take_digits
take_digits-append [] rest h = refl
take_digits-append (c ∷ a) rest h = ground (arith, take_digits-append a rest)

pub take_digits_sound :
    (n : ℕ) (s : Bytes) {a r : Bytes}
    → take_digits n s ≡ some (a, r)
    → (s ≡ a ++ r) × (length a ≡ n) × AllDigits a
unfolding take_digits
take_digits_sound zero s h = ground arith
take_digits_sound (suc n) [] h = cc
take_digits_sound (suc n) (c ∷ s) h = elim (Option-cases (take_digits n s)) [
  | inl e ↦ ground arith
  | inr ((a, r), e) ↦ ground (arith, take_digits_sound n s e)
]

pub span_digits-append :
    (a : Bytes) (c : ℕ) (rest : Bytes)
    → AllDigits a
    → is_digit c ≡ false
    → span_digits (a ++ c ∷ rest) ≡ (a, c ∷ rest)
unfolding span_digits
span_digits-append [] c rest h e = ground arith
span_digits-append (d ∷ a) c rest h e = ground (arith, span_digits-append a c rest)

digit_of_mod : (n : ℕ) → is_digit (b'0' + n % 10) ≡ true
digit_of_mod n = ground arith

pub length-fixed : (w n : ℕ) → length (fixed w n) ≡ w
unfolding fixed
length-fixed zero n = refl
length-fixed (suc w) n = length-append (fixed w (n / 10)) _ ∙ omega (arith, length-fixed w (n / 10))

pub fixed-AllDigits : (w n : ℕ) → AllDigits (fixed w n)
unfolding fixed
fixed-AllDigits zero n = refl
fixed-AllDigits (suc w) n =
    AllDigits-append (fixed w (n / 10)) _ (fixed-AllDigits w (n / 10)) (ground arith)

pub take_digits-fixed :
    (w n : ℕ) (rest : Bytes) → take_digits w (fixed w n ++ rest) ≡ some (fixed w n, rest)
take_digits-fixed w n rest =
    rw (length-fixed w n) at (take_digits-append (fixed w n) rest (fixed-AllDigits w n))

pub padded-fixed : (w n : ℕ) → n < 10 ^ w → padded w n ≡ fixed w n
unfolding padded
padded-fixed w n h = ground arith

scan-fixed :
    (max w n : ℕ) (out : Bytes)
    → n < 10 ^ w
    → n ≤ max
    → scan max (fixed w n ++ out) 0 ≡ scan max out n
unfolding fixed
scan-fixed max zero n out h k = rw (let e : n ≡ 0 = omega arith in e) refl
scan-fixed max (suc w) n out h k = rw append_assoc (
    scan-fixed max w (n / 10) ((b'0' + n % 10) ∷ out) (omega (arith, pow-suc 10 w)) (omega arith)
    ∙ unfold scan in ground arith)

-- Digits of a fixed width are read back.
pub parse_uint-fixed :
    (max w n : ℕ) → n < 10 ^ suc w → n ≤ max → parse_uint max (fixed (suc w) n) ≡ some n
unfolding fixed scan
parse_uint-fixed max w n h k =
    parse_uint-scan max (fixed (suc w) n) (concat-ne-nil (b'0' + n % 10) (fixed w (n / 10)))
    ∙ (rw append-nil at (scan-fixed max (suc w) n [] h k))

pub expect_self : (p : Bytes) → expect p p ≡ some []
unfolding expect
expect_self [] = refl
expect_self (c ∷ p) = ground (arith, expect_self p)
