-- ===== src/Wsman/Recorder/Placeholders.antt =====
-- wsman/record.go: the placeholders of different numbers, and the addresses among them.
use go_wsman.Common.{
  ℕ, zero, suc, ◌+◌, ◌-◌, ◌/◌, ◌%◌, ◌≤◌, ◌≡◌, refl, sym, ap, ◌∙◌, ◌⊎◌, inl, inr, some, [], ◌∷◌,
  ◌++◌, Bytes, arith,
}
use go_wsman.Common.Decimal.{format_uint, parse_uint, parse_uint-format_uint}
use go_wsman.Common.Hex.{padded_hex, read_hex, read_hex-padded_hex}
use go_wsman.Wsman.Recorder.{Prefix, scrubbed, mac, ip, guid, doc_ip_range, numbered}

-- the text behind `n` bytes
abbrev skip : ℕ → Bytes → Bytes
skip zero s = s
skip (suc n) [] = []
skip (suc n) (c ∷ s) = skip n s

abbrev byte : ℕ → Bytes → ℕ
byte n s = elim (skip n s) [ [] ↦ 0 | ◌∷◌ c r ↦ c ]

format_uint_inj : (n m : ℕ) → format_uint n ≡ format_uint m → n ≡ m
format_uint_inj n m e =
    let k : some n ≡ some m =
      sym (parse_uint-format_uint (n + m) n (omega arith))
      ∙ ap (parse_uint (n + m)) e
      ∙ parse_uint-format_uint (n + m) m (omega arith) in
    cc

padded_hex_inj :
    (letter w n m : ℕ)
    → (letter ≡ b'A') ⊎ (letter ≡ b'a')
    → padded_hex letter w n ≡ padded_hex letter w m
    → n ≡ m
padded_hex_inj letter w n m h e =
    sym (read_hex-padded_hex letter h w n)
    ∙ ap (λ s. read_hex s 0) e
    ∙ read_hex-padded_hex letter h w m

-- the text of an address in one of the ranges
abbrev address : ℕ → ℕ → Bytes
address idx octet = doc_ip_range idx ++ b'.' ∷ format_uint octet

range_inj : (i j a b : ℕ) → i ≤ 2 → j ≤ 2 → address i a ≡ address j b → (i ≡ j) × (a ≡ b)
unfolding doc_ip_range
range_inj zero zero a b h k e = (refl, format_uint_inj a b (ap (skip 10) e))
range_inj (suc zero) (suc zero) a b h k e = (refl, format_uint_inj a b (ap (skip 11) e))
range_inj (suc (suc zero)) (suc (suc zero)) a b h k e = (refl, format_uint_inj a b (ap (skip 8) e))
range_inj zero (suc zero) a b h k e = absurd (let c : 50 ≡ 49 = ap (byte 0) e in omega (arith, c))
range_inj zero (suc (suc zero)) a b h k e =
    absurd (let c : 50 ≡ 49 = ap (byte 0) e in omega (arith, c))
range_inj (suc zero) zero a b h k e = absurd (let c : 49 ≡ 50 = ap (byte 0) e in omega (arith, c))
range_inj (suc zero) (suc (suc zero)) a b h k e =
    absurd (let c : 56 ≡ 50 = ap (byte 2) e in omega (arith, c))
range_inj (suc (suc zero)) zero a b h k e =
    absurd (let c : 49 ≡ 50 = ap (byte 0) e in omega (arith, c))
range_inj (suc (suc zero)) (suc zero) a b h k e =
    absurd (let c : 50 ≡ 56 = ap (byte 2) e in omega (arith, c))
range_inj (suc (suc (suc i))) j a b h k e = omega (arith, h)
range_inj i (suc (suc (suc j))) a b h k e = omega (arith, k)

-- The documentation ranges have room for the numbers of addresses.
abbrev pub Room : Prefix → ℕ → Type 0
Room ip n = n ≤ 762
Room _ n = Unit {0}

pub numbered_inj :
    (p : Prefix) (n m : ℕ)
    → 1 ≤ n
    → 1 ≤ m
    → Room p n
    → Room p m
    → numbered p n ≡ numbered p m
    → n ≡ m
unfolding numbered
numbered_inj guid n m l k r s e = padded_hex_inj b'a' 12 n m (inr refl) (ap (skip 24) e)
numbered_inj mac n m l k r s e = padded_hex_inj b'A' 6 n m (inl refl) (ap (skip 6) e)
numbered_inj scrubbed n m l k r s e = format_uint_inj n m (ap (skip 9) e)
numbered_inj ip n m l k r s e =
    let (same_range, same_octet) =
      range_inj ((n - 1) / 254) ((m - 1) / 254) ((n - 1) % 254 + 1) ((m - 1) % 254 + 1)
        (omega (arith, r)) (omega (arith, s)) e in
    omega (arith, same_range, same_octet, l, k)
