-- ===== src/Hyperv/Embedded/Cdata.antt =====
-- hyperv/embedded.go: `cdataWrap` read back.
use go_wsman.Common.Utf8.{xml_allowed}
use go_wsman.Common.Options.{◌>>=◌}
use go_wsman.Common.{
  all, not, ◌&&◌, ◌==◌, ℕ, zero, suc, ◌≡◌, refl, ◌∙◌, Bool, true, false, Option, none, some, [],
  ◌∷◌, ◌++◌, if◌then◌else◌, Bytes, codes, arith, ap, has_prefix, inl, inr, Bool-cases,
}
use go_wsman.Common.Options.{cons_option}
use go_wsman.Hyperv.Embedded.{split_cdata, cdata_wrap}

-- An XML reader of a run of CDATA sections: `inside` tells whether a section is open, and `skip`
-- bytes belong to the mark that was met last. It returns the character data of the sections.
unfoldable pub read_cdata : Bool → ℕ → Bytes → Option Bytes
read_cdata inside (suc skip) (c ∷ s) = read_cdata inside skip s
read_cdata inside (suc skip) [] = none
read_cdata true zero [] = none
read_cdata false zero [] = some []
read_cdata true zero (c ∷ s) =
    let close = read_cdata false 2 s in
    let copy = cons_option c (read_cdata true 0 s) in
    if has_prefix (c ∷ s) (codes "]]>") then close else copy
read_cdata false zero (c ∷ s) =
    let open_section = read_cdata true 8 s in
    if has_prefix (c ∷ s) (codes "<![CDATA[") then open_section else none

abbrev marked : Bytes → Bytes
marked s = split_cdata 0 s ++ codes "]]>"

split_cdata_skip :
    (c : ℕ) (s : Bytes)
    → has_prefix (c ∷ s) (codes "]]>") ≡ false
    → has_prefix (c ∷ marked s) (codes "]]>") ≡ false
unfolding split_cdata has_prefix
split_cdata_skip c [] h = ground arith
split_cdata_skip c (d ∷ []) h = ground arith
split_cdata_skip c (d ∷ e ∷ s) h = ground arith

read_copy :
    (c : ℕ) (s : Bytes)
    → has_prefix (c ∷ s) (codes "]]>") ≡ false
    → read_cdata true 0 (marked (c ∷ s)) ≡ cons_option c (read_cdata true 0 (marked s))
unfolding read_cdata split_cdata
read_copy c s h = rw h (rw (split_cdata_skip c s h) refl)

read_close :
    (t : Bytes)
    → read_cdata true 0 (marked (b']' ∷ b']' ∷ b'>' ∷ t))
      ≡ cons_option b']' (cons_option b']' (cons_option b'>' (read_cdata true 0 (marked t))))
unfolding read_cdata split_cdata has_prefix
read_close t = refl

closes :
    (c d e : ℕ) (t : Bytes)
    → has_prefix (c ∷ d ∷ e ∷ t) (codes "]]>") ≡ true
    → (c ≡ b']') × (d ≡ b']') × (e ≡ b'>')
unfolding read_cdata split_cdata has_prefix
closes c d e t h = ground arith

read-marked : (s : Bytes) → read_cdata true 0 (marked s) ≡ some s
unfolding read_cdata split_cdata has_prefix
read-marked [] = refl
read-marked (c ∷ []) = read_copy c [] (ground arith) ∙ ap (cons_option c) (read-marked [])
read-marked (c ∷ d ∷ []) =
    read_copy c (d ∷ []) (ground arith) ∙ ap (cons_option c) (read-marked (d ∷ []))
read-marked (c ∷ d ∷ e ∷ t) = elim (Bool-cases (has_prefix (c ∷ d ∷ e ∷ t) (codes "]]>"))) [
  | inl end ↦
      let (hc, hd, he) = closes c d e t end in
      rw (hc, hd, he)
        (read_close t
          ∙ ap (λ r. cons_option b']' (cons_option b']' (cons_option b'>' r))) (read-marked t))
  | inr go ↦ read_copy c (d ∷ e ∷ t) go ∙ ap (cons_option c) (read-marked (d ∷ e ∷ t))
]

-- the sections give back the text, byte by byte
read_cdata-cdata_wrap : (s : Bytes) → read_cdata false 0 (cdata_wrap s) ≡ some s
unfolding cdata_wrap read_cdata has_prefix
read_cdata-cdata_wrap s = read-marked s

-- the line ends of a document as an XML reader passes them on, behind a carriage return or not
unfoldable pub line_ends : Bool → Bytes → Bytes
line_ends behind_cr [] = []
line_ends behind_cr (c ∷ s) =
    let behind = line_ends true s in
    let rest = line_ends false s in
    if c == b'\r' then b'\n' ∷ behind else if behind_cr && c == b'\n' then rest else c ∷ rest

-- An XML reader of a whole document of CDATA sections: line ends first, and no characters but those that
-- XML allows.
unfoldable pub read_document : Bytes → Option Bytes
unfolding line_ends read_cdata
read_document s = read_cdata false 0 (line_ends false s) >>= λ content.
    if xml_allowed content then some content else none

abbrev no_return : Bytes → Bool
no_return s = all (λ c. not (c == b'\r')) s

first_true : (a b : Bool) → (a && b) ≡ true → a ≡ true
first_true true b e = refl
first_true false b e = e

behind_true : (a b : Bool) → (a && b) ≡ true → b ≡ true
behind_true true b e = e
behind_true false b e = cc

both_true : (a b : Bool) → a ≡ true → b ≡ true → (a && b) ≡ true
both_true a b h k = rw h k

line_ends_none : (s : Bytes) → no_return s ≡ true → line_ends false s ≡ s
unfolding line_ends
line_ends_none [] h = refl
line_ends_none (c ∷ s) h = ground (arith, line_ends_none s)

split_none :
    (skip : ℕ) (s : Bytes)
    → no_return s ≡ true
    → no_return (split_cdata skip s ++ codes "]]>") ≡ true
unfolding split_cdata
split_none zero [] h = refl
split_none (suc skip) [] h = refl
split_none (suc skip) (c ∷ s) h = split_none skip s (behind_true _ (no_return s) h)
split_none zero (c ∷ s) h = elim (Bool-cases (has_prefix (c ∷ s) (codes "]]>"))) [
  | inl here ↦ rw here (split_none 2 s (behind_true _ (no_return s) h))
  | inr copy ↦ rw copy (
      both_true _ _ (first_true _ (no_return s) h) (split_none 0 s (behind_true _ (no_return s) h)))
]

wrap_none : (s : Bytes) → no_return s ≡ true → no_return (cdata_wrap s) ≡ true
unfolding cdata_wrap
wrap_none s h = split_none 0 s h

-- An XML reader, which turns carriage returns into line feeds and refuses characters that XML does not
-- allow, gets back from `cdataWrap` exactly the text that was wrapped, if all its characters are
-- allowed and none is a carriage return; CDATA marks in the text do no harm.
pub read_document-cdata_wrap :
    (s : Bytes) → xml_allowed s ≡ true → no_return s ≡ true → read_document (cdata_wrap s) ≡ some s
unfolding read_document
read_document-cdata_wrap s allowed plain =
    rw (line_ends_none (cdata_wrap s) (wrap_none s plain))
      (rw (read_cdata-cdata_wrap s) (rw allowed refl))
