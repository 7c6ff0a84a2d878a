-- ===== src/Hyperv/Embedded/Escape.antt =====
-- hyperv/embedded.go: what `cimValueEscape` writes.
use mathlib.Core.List.{flat_map}
use go_wsman.Common.{
  All, some, Bool-cases, inl, inr, ℕ, ◌≡◌, refl, ◌∙◌, [], ◌∷◌, ◌++◌, ◌==◌, ltb, take, zero, suc,
  List, true, false, if◌then◌else◌, Bytes, codes, arith, ap, has_prefix,
}
use go_wsman.Common.Utf8.{
  rune_rest, or_alone, not_a_char, replacement, two_bytes, three_bytes, four_bytes,
}
use go_wsman.Hyperv.Embedded.{
  wide_rune, escape_rune, escape_from, named_ref, escape_byte, xml_escape, replace_refs,
  cim_value_escape,
}

-- the image of an ASCII character: a numeric reference to it, the bytes of U+FFFD, or itself
unfoldable pub numeric : ℕ → Bytes
numeric c =
    if c == b'"'
    then codes "&#34;"
    else if c == b'\''
    then codes "&#39;"
    else if c == b'&'
    then codes "&#38;"
    else if c == b'<'
    then codes "&#60;"
    else if c == b'>'
    then codes "&#62;"
    else if c == b'\t'
    then codes "&#x9;"
    else if c == b'\n'
    then codes "&#xA;"
    else if c == b'\r'
    then codes "&#xD;"
    else if ltb c 0x20
    then 0xef ∷ 0xbf ∷ 0xbd ∷ []
    else c ∷ []

replace_refs-escape_byte :
    (c : ℕ) (t : Bytes) → replace_refs 0 (escape_byte c ++ t) ≡ numeric c ++ replace_refs 0 t
unfolding replace_refs escape_byte numeric has_prefix
replace_refs-escape_byte c t = ground arith

abbrev rest_of : ℕ → Bytes → ℕ
rest_of c s = or_alone (rune_rest c s)

-- the characters of a text, behind `skip` bytes of the last one
unfoldable pub runes : ℕ → Bytes → List Bytes
runes skip [] = []
runes (suc skip) (c ∷ s) = runes skip s
runes zero (c ∷ s) = (c ∷ take (rest_of c s) s) ∷ runes (rest_of c s) s

-- the image of a character: that of an ASCII character, U+FFFD for a byte that is no character and for
-- U+FFFE and U+FFFF, and any other character itself
unfoldable pub numeric_rune : Bytes → Bytes
unfolding numeric
numeric_rune [] = []
numeric_rune (c ∷ []) = if ltb c 0x80 then numeric c else replacement
numeric_rune (c ∷ d ∷ s) = if not_a_char c (d ∷ s) then replacement else c ∷ d ∷ s

low_sent :
    (c : ℕ) (t : Bytes)
    → ltb c 0x80 ≡ true
    → replace_refs 0 (escape_byte c ++ t) ≡ numeric_rune (c ∷ []) ++ replace_refs 0 t
unfolding numeric_rune
low_sent c t low = rw low (replace_refs-escape_byte c t)

abbrev High : ℕ → Type 0
High c = ltb c 0x80 ≡ false

replaces_byte : (c : ℕ) (t : Bytes) → High c → replace_refs 0 (c ∷ t) ≡ c ∷ replace_refs 0 t
unfolding replace_refs named_ref has_prefix
replaces_byte c t h = ground arith

replaces_bytes : (s t : Bytes) → All High s → replace_refs 0 (s ++ t) ≡ s ++ replace_refs 0 t
replaces_bytes [] t all = refl
replaces_bytes (c ∷ s) t (h, all) =
    replaces_byte c (s ++ t) h ∙ ap (λ r. c ∷ r) (replaces_bytes s t all)

replaces_none : (t : Bytes) → replace_refs 0 (replacement ++ t) ≡ replacement ++ replace_refs 0 t
unfolding replace_refs named_ref has_prefix
replaces_none t = refl

take_none : (s : Bytes) → take 0 s ≡ []
take_none [] = refl
take_none (c ∷ s) = refl

-- the other bytes of a character that has some
abbrev Shape : ℕ → Bytes → ℕ → Type 0
Shape c s n =
    (d : ℕ) × (tail : Bytes) × (take n s ≡ d ∷ tail)
    × All High (d ∷ tail)
    × (not_a_char c s ≡ not_a_char c (d ∷ tail))

two-Shape : (c : ℕ) (s : Bytes) → two_bytes c s ≡ true → Shape c s 1
unfolding two_bytes not_a_char
two-Shape c [] h = cc
two-Shape c (d ∷ []) h = (d, [], refl, (ground arith, tt), refl)
two-Shape c (d ∷ e ∷ s) h = (d, [], refl, (ground arith, tt), ground arith)

three-Shape : (c : ℕ) (s : Bytes) → three_bytes c s ≡ true → Shape c s 2
unfolding three_bytes not_a_char
three-Shape c [] h = cc
three-Shape c (d ∷ []) h = cc
three-Shape c (d ∷ e ∷ s) h =
    (d, e ∷ [], ap (λ t. d ∷ e ∷ t) (take_none s), (ground arith, (ground arith, tt)), refl)

four-Shape : (c : ℕ) (s : Bytes) → four_bytes c s ≡ true → Shape c s 3
unfolding four_bytes not_a_char
four-Shape c [] h = cc
four-Shape c (d ∷ []) h = cc
four-Shape c (d ∷ e ∷ []) h = cc
four-Shape c (d ∷ e ∷ f ∷ s) h = (
  d,
  e ∷ f ∷ [],
  ap (λ t. d ∷ e ∷ f ∷ t) (take_none s),
  (ground arith, (ground arith, (ground arith, tt))),
  refl,
)

-- what is sent for a character, and where the next one begins
abbrev Sends : ℕ → Bytes → Bytes × ℕ → ℕ → Type 0
Sends c s sent n =
    ((t : Bytes) → replace_refs 0 (sent.0 ++ t) ≡ numeric_rune (c ∷ take n s) ++ replace_refs 0 t)
    × (sent.1 ≡ n)

several_sent :
    (c : ℕ) (s : Bytes) (n : ℕ) → High c → Shape c s n → Sends c s (wide_rune c s (some n)) n
unfolding numeric_rune
several_sent c s n high (d, tail, taken, all, same) = (
  λ t. rw taken (
      rw same (elim (Bool-cases (not_a_char c (d ∷ tail))) [
        | inl never ↦ rw never (replaces_none t)
        | inr fine ↦ rw fine (replaces_bytes (c ∷ d ∷ tail) t (high, all))
      ])),
  refl,
)

alone_sent : (c : ℕ) (s : Bytes) → High c → Sends c s (replacement, 0) 0
unfolding numeric_rune
alone_sent c s high = (λ t. rw (take_none s) (rw high (replaces_none t)), refl)

rune_sent : (c : ℕ) (s : Bytes) → Sends c s (escape_rune c s) (rest_of c s)
unfolding escape_rune rune_rest
rune_sent c s = elim (Bool-cases (ltb c 0x80)) [
  | inl low ↦ rw (low, escape_rune) ((λ t. rw (take_none s) (low_sent c t low)), refl)
  | inr high ↦ elim (Bool-cases (two_bytes c s)) [
    | inl two ↦ rw (high, escape_rune) (rw two (several_sent c s 1 high (two-Shape c s two)))
    | inr longer ↦ elim (Bool-cases (three_bytes c s)) [
      | inl three ↦
          rw (high, escape_rune)
            (rw longer (rw three (several_sent c s 2 high (three-Shape c s three))))
      | inr longest ↦ elim (Bool-cases (four_bytes c s)) [
        | inl four ↦
            rw (high, escape_rune)
              (rw longer (rw longest (rw four (several_sent c s 3 high (four-Shape c s four)))))
        | inr bad ↦ rw (high, escape_rune) (rw longer (rw longest (rw bad (alone_sent c s high))))
      ]
    ]
  ]
]

escaped_from :
    (skip : ℕ) (s : Bytes)
    → replace_refs 0 (escape_from skip s) ≡ flat_map numeric_rune (runes skip s)
unfolding flat_map escape_from runes replace_refs
escaped_from zero [] = refl
escaped_from (suc skip) [] = refl
escaped_from (suc skip) (c ∷ s) = escaped_from skip s
escaped_from zero (c ∷ s) =
    let (sent, next) = rune_sent c s in
    sent (escape_from (escape_rune c s).1 s)
    ∙ ap (λ n. numeric_rune (c ∷ take (rest_of c s) s) ++ replace_refs 0 (escape_from n s)) next
    ∙ ap (λ r. numeric_rune (c ∷ take (rest_of c s) s) ++ r) (escaped_from (rest_of c s) s)

-- `cimValueEscape` maps every character of a text to its image: no named reference is ever sent, and
-- what XML does not allow or is not UTF-8 is sent as U+FFFD.
pub cim_value_escape-flat_map : (s : Bytes) → cim_value_escape s ≡ flat_map numeric_rune (runes 0 s)
unfolding cim_value_escape xml_escape
cim_value_escape-flat_map s = escaped_from 0 s
