-- ===== src/Wsman/Recorder/Header.antt =====
-- wsman/record.go: the header of a recorded file is read back.
use mathlib.Core.Path.{subst}
use go_wsman.Common.{
  ℕ, ◌≡◌, refl, sym, ap, ◌∙◌, ◌==◌, Bool, true, false, not, ◌||◌, none, some, [], ◌∷◌, ◌++◌,
  append_assoc, Bytes, codes, all, length, is_digit, expect, behind_first, str_eq_refl, ok, arith,
}
use go_wsman.Wsman.Recorder.Files.{
  recorded_by_marker, contains, is_lower_hex, take_lower_hex, skip_spaces, hash_at, recorded_hash,
  strip_recorded_header,
}
use go_wsman.Wsman.Recorder.Recording.{Outside, recorded_header, verify_recorded_hash}

-- the bytes of a time in UTC of RFC 3339
abbrev pub is_time_byte : ℕ → Bool
is_time_byte c = is_digit c || c == b'-' || c == b':' || c == b'T' || c == b'Z'

abbrev pub is_inside : ℕ → Bool
is_inside c = not (c == b'>')

-- A digest is 64 digits, and neither the time nor the advice ends a comment.
pub record Documented (out : Outside) (time : Bytes) : Type 0 where
  pub digits : (s : Bytes) → all is_lower_hex (out.sha256 s) ≡ true
  pub width : (s : Bytes) → length (out.sha256 s) ≡ 64
  pub timed : all is_time_byte time ≡ true
  pub inside : all is_inside out.advice ≡ true

-- the header and the body in one text
unfoldable header_text : Bytes → Bytes → Bytes → Bytes → Bytes
header_text advice time hash body =
    codes "<!--\n  "
    ++ (recorded_by_marker
        ++ (codes "\n  recorded-at: "
            ++ (time
                ++ (codes "\n  sha256: "
                    ++ (hash ++ (codes "\n\n" ++ (advice ++ (codes "\n-->\n" ++ body))))))))

header_text_same :
    (advice time hash body : Bytes)
    → recorded_header advice time hash ++ body ≡ header_text advice time hash body
unfolding recorded_header header_text
header_text_same advice time hash body = simp append_assoc refl

abbrev close : Bytes
close = codes "-->\n"

no_close : (x y z : ℕ) (s : Bytes) → is_inside z ≡ true → expect close (x ∷ y ∷ z ∷ s) ≡ none
unfolding expect
no_close x y z s h = ground arith

no_dash : (x y : ℕ) (s : Bytes) → (y == b'-') ≡ false → expect close (x ∷ y ∷ s) ≡ none
unfolding expect
no_dash x y s h = ground arith

pass_one :
    (x : ℕ) (s : Bytes)
    → expect close (x ∷ s) ≡ none
    → behind_first close (x ∷ s) ≡ behind_first close s
unfolding behind_first
pass_one x s e = rw (e, behind_first) refl

-- The search for the end of the comment goes through a text without `>`.
through :
    (a : Bytes) (s : Bytes)
    → all is_inside a ≡ true
    → behind_first close (a ++ b'\n' ∷ s) ≡ behind_first close (b'\n' ∷ s)
through [] s h = refl
through (x ∷ []) s h = pass_one x (b'\n' ∷ s) (no_dash x b'\n' s refl)
through (x ∷ y ∷ []) s h =
    pass_one x (y ∷ b'\n' ∷ s) (no_close x y b'\n' s refl) ∙ through (y ∷ []) s (ground arith)
through (x ∷ y ∷ z ∷ a) s h =
    pass_one x (y ∷ z ∷ (a ++ b'\n' ∷ s)) (no_close x y z (a ++ b'\n' ∷ s) (ground arith))
    ∙ through (y ∷ z ∷ a) s (ground arith)

time_inside : (a : Bytes) → all is_time_byte a ≡ true → all is_inside a ≡ true
time_inside [] h = refl
time_inside (c ∷ a) h = ground (arith, time_inside a)

hex_inside : (a : Bytes) → all is_lower_hex a ≡ true → all is_inside a ≡ true
hex_inside [] h = refl
hex_inside (c ∷ a) h = ground (arith, hex_inside a)

no_first : (c : ℕ) (s : Bytes) → (c == b's') ≡ false → expect (codes "sha256:") (c ∷ s) ≡ none
unfolding expect
no_first c s h = rw h refl

no_hash_here : (c : ℕ) (s : Bytes) → (c == b's') ≡ false → recorded_hash (c ∷ s) ≡ recorded_hash s
unfolding recorded_hash hash_at
no_hash_here c s h = rw (no_first c s h, recorded_hash, hash_at) refl

time_not_s : (c : ℕ) → is_time_byte c ≡ true → (c == b's') ≡ false
time_not_s c h = ground arith

time_front : (c : ℕ) (a : Bytes) → all is_time_byte (c ∷ a) ≡ true → is_time_byte c ≡ true
time_front c a h = ground arith

time_rest : (c : ℕ) (a : Bytes) → all is_time_byte (c ∷ a) ≡ true → all is_time_byte a ≡ true
time_rest c a h = ground arith

-- The search for the digest goes through the time.
hash_through : (a s : Bytes) → all is_time_byte a ≡ true → recorded_hash (a ++ s) ≡ recorded_hash s
hash_through [] s h = refl
hash_through (c ∷ a) s h =
    no_hash_here c (a ++ s) (time_not_s c (time_front c a h)) ∙ hash_through a s (time_rest c a h)

hash_digits :
    (a s : Bytes) → all is_lower_hex a ≡ true → take_lower_hex (length a) (a ++ s) ≡ some a
unfolding take_lower_hex
hash_digits [] s h = refl
hash_digits (c ∷ a) s h = ground (arith, hash_digits a s)

skip_none :
    (a s : Bytes) → all is_lower_hex a ≡ true → length a ≡ 64 → skip_spaces (a ++ s) ≡ a ++ s
unfolding skip_spaces
skip_none [] s h l = absurd (let k : 0 ≡ 64 = l in omega (arith, k))
skip_none (c ∷ a) s h l = ground arith

one_space : (s : Bytes) → skip_spaces (b' ' ∷ s) ≡ skip_spaces s
unfolding skip_spaces
one_space s = refl

hash_here :
    (h s : Bytes)
    → all is_lower_hex h ≡ true
    → length h ≡ 64
    → hash_at (codes "sha256: " ++ (h ++ s)) ≡ some h
unfolding hash_at expect
hash_here h s d w =
    ap (take_lower_hex 64) (one_space (h ++ s) ∙ skip_none h s d w)
    ∙ ap (λ n. take_lower_hex n (h ++ s)) (sym w)
    ∙ hash_digits h s d

hash_found :
    (h s : Bytes)
    → all is_lower_hex h ≡ true
    → length h ≡ 64
    → recorded_hash (codes "\n  sha256: " ++ (h ++ s)) ≡ some h
unfolding recorded_hash
hash_found h s d w =
    no_hash_here b'\n' _ refl
    ∙ no_hash_here b' ' _ refl
    ∙ no_hash_here b' ' (codes "sha256: " ++ (h ++ s)) refl
    ∙ (rw (hash_here h s d w, recorded_hash) refl)

module _ (out : Outside) (time : Bytes) (d : Documented out time) (body : Bytes) where
  abbrev hash : Bytes
  hash = out.sha256 body

  abbrev content : Bytes
  content = header_text out.advice time hash body

  marker_found : contains content recorded_by_marker ≡ true
  unfolding contains behind_first expect header_text
  marker_found = refl

  abbrev behind_time : Bytes
  behind_time =
      codes "  sha256: " ++ (hash ++ (codes "\n\n" ++ (out.advice ++ (codes "\n-->\n" ++ body))))

  abbrev behind_hash : Bytes
  behind_hash = codes "\n" ++ (out.advice ++ (codes "\n-->\n" ++ body))

  -- the text behind the first four bytes
  abbrev inside_text : Bytes
  inside_text =
      codes "\n  "
      ++ (recorded_by_marker ++ (codes "\n  recorded-at: " ++ (time ++ b'\n' ∷ behind_time)))

  comment_ends : behind_first close inside_text ≡ some body
  unfolding behind_first expect
  comment_ends =
      through time behind_time (time_inside time d.timed)
      ∙ through hash behind_hash (hex_inside hash (d.digits body))
      ∙ through out.advice (codes "-->\n" ++ body) d.inside

  header_stripped : strip_recorded_header content ≡ body
  unfolding strip_recorded_header header_text expect
  header_stripped = rw (comment_ends, strip_recorded_header) refl

  hash_read : recorded_hash content ≡ some hash
  unfolding header_text recorded_hash hash_at expect
  hash_read =
      hash_through time (b'\n' ∷ behind_time) d.timed
      ∙ hash_found hash (b'\n' ∷ behind_hash) (d.digits body) (d.width body)

  content_verified : verify_recorded_hash out content ≡ ok tt
  unfolding verify_recorded_hash
  content_verified =
      rw (marker_found, verify_recorded_hash)
        (rw hash_read (rw header_stripped (rw (str_eq_refl hash) refl)))

  -- If digests have 64 digits, and neither the time nor the advice has the byte that ends a comment,
  -- then what the recorder writes for a body is read back: the text behind the header is the body,
  -- and the file passes the test of its marker and its digest.
  pub verify_recorded_hash-recorded_header :
      (strip_recorded_header (recorded_header out.advice time (out.sha256 body) ++ body) ≡ body)
      × (verify_recorded_hash out (recorded_header out.advice time (out.sha256 body) ++ body)
          ≡ ok tt)
  verify_recorded_hash-recorded_header =
      subst (λ x. (strip_recorded_header x ≡ body) × (verify_recorded_hash out x ≡ ok tt))
        (sym (header_text_same out.advice time hash body)) (header_stripped, content_verified)
