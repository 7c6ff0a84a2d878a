-- ===== src/Hyperv/CimTag/Interval.antt =====
-- hyperv/cimtag.go: what `iso8601ToCIMInterval` returns is a CIM interval of the same length.
use go_wsman.Common.{
  both_ok, err, inr, inl, Option-cases, ◌∙◌, sym, ap, ℕ, ◌+◌, ◌*◌, ◌/◌, ◌%◌, ◌≤◌, ◌<◌, ◌≡◌, refl,
  Option, none, some, ◌++◌, Bytes, codes, ok, arith,
}
use go_wsman.Common.Options.{◌>>=◌}
use go_wsman.Common.Decimal.{fixed}
use go_wsman.Common.Reading.{
  take_digits-fixed, padded-fixed, expect-append, expect_self, parse_uint-fixed,
}
use go_wsman.Hyperv.CimTag.{
  max_interval_days, max_int64, interval_fields, check_field, validate_cim_interval,
  duration_fields, duration_numbers, print_interval, normalize, iso8601_to_cim_interval,
  convert_duration, not_duration, not_a_number, not_interval,
}

-- The fields of a CIM interval fit their places.
pub record Fits (d h m s : ℕ) : Type 0 where
  pub days : d ≤ max_interval_days
  pub hours : h < 24
  pub minutes : m < 60
  pub seconds : s < 60

print_interval-fixed :
    {d h m s : ℕ}
    → Fits d h m s
    → print_interval d h m s
      ≡ fixed 8 d
        ++ (fixed 2 h ++ (fixed 2 m ++ (fixed 2 s ++ (codes "." ++ (fixed 6 0 ++ codes ":000")))))
unfolding print_interval
print_interval-fixed {d} {h} {m} {s} f =
    rw
      (
        padded-fixed 8 d (omega arith),
        padded-fixed 2 h (omega arith),
        padded-fixed 2 m (omega arith),
        padded-fixed 2 s (omega arith),
        padded-fixed 6 0 (omega arith),
      )
      refl

pub interval_fields-print_interval :
    {d h m s : ℕ}
    → Fits d h m s
    → interval_fields (print_interval d h m s) ≡ some (fixed 8 d, fixed 2 h, fixed 2 m, fixed 2 s)
unfolding interval_fields
interval_fields-print_interval f =
    rw (print_interval-fixed f) (simp (take_digits-fixed, expect-append, expect_self))

check_field-fixed : (v max : ℕ) → v ≤ max → max < 100 → check_field (fixed 2 v) max ≡ ok tt
unfolding check_field
check_field-fixed v max h k =
    rw (parse_uint-fixed max_int64 1 v (omega arith) (omega arith), check_field) (ground arith)

pub validate_cim_interval-print_interval :
    {d h m s : ℕ} → Fits d h m s → validate_cim_interval (print_interval d h m s) ≡ ok tt
unfolding validate_cim_interval
validate_cim_interval-print_interval {d} {h} {m} {s} f =
    rw (interval_fields-print_interval f, validate_cim_interval)
      (simp (
        check_field-fixed h 23 (omega arith) (omega arith),
        check_field-fixed m 59 (omega arith) (omega arith),
        check_field-fixed s 59 (omega arith) (omega arith),
      ))

-- the seconds that days, hours, minutes and seconds make
abbrev pub span : ℕ → ℕ → ℕ → ℕ → ℕ
span d h m s = d * 86400 + h * 3600 + m * 60 + s

-- the four numbers of a text, read as a CIM interval or as an ISO 8601 duration
abbrev pub text_numbers : Bytes → Option (ℕ × ℕ × ℕ × ℕ)
text_numbers s = elim (interval_fields s) [
  | some fields ↦ duration_numbers fields
  | none ↦ duration_fields s >>= duration_numbers
]

-- the seconds that a text stands for
abbrev pub text_seconds : Bytes → Option ℕ
text_seconds s = do (d, h, m, s') ← text_numbers s; some (span d h m s')

text_seconds-print_interval :
    {d h m s : ℕ} → Fits d h m s → text_seconds (print_interval d h m s) ≡ some (span d h m s)
unfolding duration_numbers
text_seconds-print_interval {d} {h} {m} {s} f =
    rw (interval_fields-print_interval f, text_numbers)
      (simp (
        parse_uint-fixed max_int64 7 d (omega arith) (omega arith),
        parse_uint-fixed max_int64 1 h (omega arith) (omega arith),
        parse_uint-fixed max_int64 1 m (omega arith) (omega arith),
        parse_uint-fixed max_int64 1 s (omega arith) (omega arith),
      ))

-- A result of `normalize`: four fields that fit, of the same span.
pub record Normalized (total : ℕ) (t : Bytes) : Type 0 where
  pub d : ℕ
  pub h : ℕ
  pub m : ℕ
  pub s : ℕ
  pub fits : Fits d h m s
  pub printed : t ≡ print_interval d h m s
  pub same_span : span d h m s ≡ total

normalize_ok :
    (d h m s : ℕ) {t : Bytes}
    → normalize d h m s ≡ ok t
    → let rem = span d h m s % 86400 in
      (span d h m s / 86400 ≤ max_interval_days)
      × (t ≡ print_interval (span d h m s / 86400) (rem / 3600) (rem % 3600 / 60) (rem % 60))
unfolding normalize
normalize_ok d h m s e = ground arith

normalize-Normalized :
    (d h m s : ℕ) {t : Bytes} → normalize d h m s ≡ ok t → Normalized (span d h m s) t
normalize-Normalized d h m s e =
    let (few, printed) = normalize_ok d h m s e in
    record {
      d = span d h m s / 86400;
      h = span d h m s % 86400 / 3600;
      m = span d h m s % 86400 % 3600 / 60;
      s = span d h m s % 86400 % 60;
      fits = omega arith;
      printed = printed;
      same_span = omega arith;
    }

-- What is written is a CIM interval in range, of the span that was read.
pub record Converts (s t : Bytes) : Type 0 where
  pub valid : validate_cim_interval t ≡ ok tt
  pub same_span : text_seconds t ≡ text_seconds s

text_seconds-print : {total : ℕ} {t : Bytes} (n : Normalized total t) → text_seconds t ≡ some total
text_seconds-print n = rw n.printed (text_seconds-print_interval n.fits ∙ ap some n.same_span)

convert_duration_ok :
    (s : Bytes) {t : Bytes}
    → convert_duration s ≡ ok t
    → (n : ℕ × ℕ × ℕ × ℕ) × ((duration_fields s >>= duration_numbers) ≡ some n)
      × (normalize n.0 n.1 n.2 n.3 ≡ ok t)
unfolding convert_duration
convert_duration_ok s h = elim (Option-cases (duration_fields s)) [
  | inl nothing ↦ let x : err not_duration ≡ ok _ = rw (nothing, convert_duration) at h in cc
  | inr (fields, found) ↦ elim (Option-cases (duration_numbers fields)) [
    | inl nan ↦
        let x : err not_a_number ≡ ok _ = rw nan at (rw (found, convert_duration) at h) in cc
    | inr (n, read) ↦ (n, rw found read, rw read at (rw (found, convert_duration) at h))
  ]
]

duration-Converts :
    (s : Bytes) {t : Bytes} → interval_fields s ≡ none → convert_duration s ≡ ok t → Converts s t
duration-Converts s {t} e h =
    let ((d, h, m, s'), read, normal) = convert_duration_ok s h in
    let n = normalize-Normalized d h m s' normal in
    record {
      valid = rw n.printed (validate_cim_interval-print_interval n.fits);
      same_span = text_seconds-print n ∙ sym (rw (e, text_numbers) (rw read refl));
    }

-- What `iso8601ToCIMInterval` returns passes `validateCIMInterval`, and it stands for as many
-- seconds as the text given.
pub iso8601_to_cim_interval-Converts :
    (s : Bytes) {t : Bytes} → iso8601_to_cim_interval s ≡ ok t → Converts s t
unfolding iso8601_to_cim_interval
iso8601_to_cim_interval-Converts s {t} h = elim (Option-cases (interval_fields s)) [
  | inl e ↦ duration-Converts s e (rw (e, iso8601_to_cim_interval) at h)
  | inr (fields, e) ↦
      let (u, valid, same) =
        both_ok (validate_cim_interval s) (λ _. ok s) (rw (e, iso8601_to_cim_interval) at h) in
      let st : s ≡ t = cc in
      record { valid = rw (← st) (cc (valid)); same_span = ap text_seconds (sym st) }
]

matches_of_valid :
    (t : Bytes)
    → validate_cim_interval t ≡ ok tt
    → (fields : Bytes × Bytes × Bytes × Bytes) × (interval_fields t ≡ some fields)
unfolding validate_cim_interval
matches_of_valid t valid = elim (Option-cases (interval_fields t)) [
  | inl e ↦ let x : err not_interval ≡ ok tt = rw (e, validate_cim_interval) at valid in cc
  | inr found ↦ found
]

-- A text that `iso8601ToCIMInterval` returned is returned as it stands.
pub iso8601_to_cim_interval_idem :
    (s : Bytes) {t : Bytes} → iso8601_to_cim_interval s ≡ ok t → iso8601_to_cim_interval t ≡ ok t
unfolding iso8601_to_cim_interval
iso8601_to_cim_interval_idem s {t} h =
    let valid = (iso8601_to_cim_interval-Converts s h).valid in
    let (fields, e) = matches_of_valid t valid in rw (e, iso8601_to_cim_interval) (rw valid refl)
