-- ===== src/Common/Decimal.antt =====
-- The decimal forms of the packages strconv and fmt.
use Prim.Native.Nat.{ℕ, zero, suc, ◌+◌, ◌-◌, ◌*◌, ◌/◌, ◌%◌, ◌^◌, ◌≤◌}
use mathlib.Core.Logic.{◌≢◌}
use mathlib.Core.Bool.{true}
use go_wsman.Common.Lists.{all}
use mathlib.Core.Path.{◌≡◌, refl, ◌∙◌}
use mathlib.Core.Logic.{inl, inr}
use mathlib.Core.Option.{Option, none, some}
use mathlib.Core.List.{[], ◌∷◌, ◌++◌}
use native.Mathlib.Omega.{arith}
use go_wsman.Common.Tests.{ltb, leb, if◌then◌else◌, Bool-cases}
use go_wsman.Common.Text.{Bytes, is_digit}

-- What `strconv.ParseUint(s, 10, bits)` computes behind the digits read so far, with `max` the
-- largest value of the width; `none` is ErrSyntax or ErrRange.
unfoldable pub scan : ℕ → Bytes → ℕ → Option ℕ
scan max [] n = some n
scan max (c ∷ s) n =
    if is_digit c
    then (let m = n * 10 + (c - b'0') in if leb m max then scan max s m else none)
    else none

-- `strconv.ParseUint`, and `strconv.ParseInt` of a text of digits
unfoldable pub parse_uint : ℕ → Bytes → Option ℕ
parse_uint max [] = none
parse_uint max (c ∷ s) = scan max (c ∷ s) 0

-- `strconv.FormatUint(n, 10)`: a round for each digit, the fuel is `n` itself
format_onto : ℕ → ℕ → Bytes → Bytes
format_onto zero n out = (b'0' + n % 10) ∷ out
format_onto (suc f) n out =
    let rest = format_onto f (n / 10) ((b'0' + n % 10) ∷ out) in
    if ltb n 10 then (b'0' + n) ∷ out else rest

unfoldable pub format_uint : ℕ → Bytes
unfolding format_onto
format_uint n = format_onto n n []

-- exactly `w` digits
unfoldable pub fixed : ℕ → ℕ → Bytes
fixed zero n = []
fixed (suc w) n = fixed w (n / 10) ++ (b'0' + n % 10) ∷ []

-- the verb `%0wd`: at least `w` digits
unfoldable pub padded : ℕ → ℕ → Bytes
padded w n = if ltb n (10 ^ w) then fixed w n else format_uint n

scan-format_onto :
    (max f n : ℕ) (out : Bytes)
    → n ≤ f
    → n ≤ max
    → scan max (format_onto f n out) 0 ≡ scan max out n
unfolding scan format_onto
scan-format_onto max zero n out hf hm = ground arith
scan-format_onto max (suc f) n out hf hm =
    ground (arith, scan-format_onto max f (n / 10) ((b'0' + n % 10) ∷ out))

format_onto-cons : (f n : ℕ) (out : Bytes) → (c : ℕ) × (s : Bytes) × (format_onto f n out ≡ c ∷ s)
unfolding format_onto
format_onto-cons zero n out = (b'0' + n % 10, out, refl)
format_onto-cons (suc f) n out =
    let (c, s, e) = format_onto-cons f (n / 10) ((b'0' + n % 10) ∷ out) in
    elim (Bool-cases (ltb n 10)) [
      | inl small ↦ (b'0' + n, out, rw small)
      | inr large ↦ (c, s, rw large e)
    ]

pub parse_uint-scan : (max : ℕ) (s : Bytes) → s ≢ [] → parse_uint max s ≡ scan max s 0
unfolding parse_uint
parse_uint-scan max [] h = absurd (h refl)
parse_uint-scan max (c ∷ s) h = refl

pub format_uint-ne-nil : (n : ℕ) → format_uint n ≢ []
unfolding format_uint
format_uint-ne-nil n h = let (c, s, e) = format_onto-cons n n [] in cc

-- Every number of the width is read back from its decimal form.
pub parse_uint-format_uint : (max n : ℕ) → n ≤ max → parse_uint max (format_uint n) ≡ some n
unfolding format_uint scan
parse_uint-format_uint max n h =
    parse_uint-scan max (format_onto n n []) (format_uint-ne-nil n)
    ∙ scan-format_onto max n n [] (omega arith) h

scan-le : (max : ℕ) (s : Bytes) (n r : ℕ) → n ≤ max → scan max s n ≡ some r → r ≤ max
unfolding scan
scan-le max [] n r h e = ground arith
scan-le max (c ∷ s) n r h e = ground (arith, scan-le max s (n * 10 + (c - b'0')) r)

-- What is read fits the width.
pub parse_uint-le : (max : ℕ) (s : Bytes) {n : ℕ} → parse_uint max s ≡ some n → n ≤ max
unfolding parse_uint
parse_uint-le max [] e = cc
parse_uint-le max (c ∷ s) e = scan-le max (c ∷ s) 0 _ (omega arith) e

format_onto-digits :
    (f n : ℕ) (out : Bytes) → all is_digit out ≡ true → all is_digit (format_onto f n out) ≡ true
unfolding format_onto
format_onto-digits zero n out h = ground arith
format_onto-digits (suc f) n out h =
    ground (arith, format_onto-digits f (n / 10) ((b'0' + n % 10) ∷ out))

pub format_uint-digits : (n : ℕ) → all is_digit (format_uint n) ≡ true
unfolding format_uint
format_uint-digits n = format_onto-digits n n [] refl
