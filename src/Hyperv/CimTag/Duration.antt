-- ===== src/Hyperv/CimTag/Duration.antt =====
-- hyperv/cimtag.go: which durations `iso8601ToCIMInterval` converts, and which it refuses.
use go_wsman.Common.{
  arith, ◌∙◌, err, ok, ◌&&◌, ◌∷◌, ◌/◌, is_empty, some, false, if◌then◌else◌, none, [], ◌++◌,
  is_digit, ◌≢◌, expect, leb, codes, take_digits, ◌%◌, ◌≤◌, ◌≡◌, Bytes, Bool, ℕ, refl,
}
use go_wsman.Common.Decimal.{
  format_uint, format_uint-ne-nil, format_uint-digits, parse_uint-format_uint,
}
use go_wsman.Common.Reading.{span_digits-append}
use go_wsman.Hyperv.CimTag.{
  field_too_large, too_many_days, max_interval_days, max_int64, print_interval, duration_numbers,
  convert_duration, interval_fields, normalize, duration_fields, iso8601_to_cim_interval,
  some_digits,
}
use go_wsman.Hyperv.CimTag.Interval.{span}

-- An ISO 8601 duration as the host writes it
unfoldable pub duration : ℕ → ℕ → ℕ → ℕ → Bytes
duration d h m s =
    codes "P"
    ++ (format_uint d
        ++ (codes "DT"
            ++ (format_uint h
                ++ (codes "H" ++ (format_uint m ++ (codes "M" ++ (format_uint s ++ codes "S")))))))

is_empty_of_ne_nil : (s : Bytes) → s ≢ [] → is_empty s ≡ false
is_empty_of_ne_nil [] h = absurd (h refl)
is_empty_of_ne_nil (c ∷ s) h = refl

some_digits-format_uint :
    (n c : ℕ) (rest : Bytes)
    → is_digit c ≡ false
    → some_digits (format_uint n ++ c ∷ rest) ≡ some (format_uint n, c ∷ rest)
unfolding some_digits
some_digits-format_uint n c rest h =
    rw (span_digits-append (format_uint n) c rest (format_uint-digits n) h, some_digits)
      (rw (is_empty_of_ne_nil _ (format_uint-ne-nil n)) refl)

duration_fields-duration :
    (d h m s : ℕ)
    → duration_fields (duration d h m s)
      ≡ some (format_uint d, format_uint h, format_uint m, format_uint s)
unfolding duration duration_fields expect
duration_fields-duration d h m s = simp (
  some_digits-format_uint d b'D' _ refl,
  some_digits-format_uint h b'H' _ refl,
  some_digits-format_uint m b'M' _ refl,
  some_digits-format_uint s b'S' _ refl,
)

convert_duration-duration :
    (d h m s : ℕ)
    → d ≤ max_int64
    → h ≤ max_int64
    → m ≤ max_int64
    → s ≤ max_int64
    → convert_duration (duration d h m s) ≡ normalize d h m s
unfolding convert_duration duration_numbers
convert_duration-duration d h m s bd bh bm bs =
    rw (duration_fields-duration d h m s, convert_duration)
      (rw
        (
          parse_uint-format_uint max_int64 d bd,
          parse_uint-format_uint max_int64 h bh,
          parse_uint-format_uint max_int64 m bm,
          parse_uint-format_uint max_int64 s bs,
          duration_numbers,
        )
        refl)

not-interval_fields-duration : (d h m s : ℕ) → interval_fields (duration d h m s) ≡ none
unfolding interval_fields duration take_digits
not-interval_fields-duration d h m s = refl

-- the four fields are within the bound that comes before the multiplication
abbrev pub small_fields : ℕ → ℕ → ℕ → ℕ → Bool
small_fields d h m s =
    leb d max_interval_days
    && leb h max_interval_days
    && leb m max_interval_days
    && leb s max_interval_days

-- the interval of a span
abbrev pub interval_of : ℕ → Bytes
interval_of total =
    let rem = total % 86400 in
    print_interval (total / 86400) (rem / 3600) (rem % 3600 / 60) (rem % 60)

normalize_lem :
    (d h m s : ℕ)
    → normalize d h m s ≡ (
        if small_fields d h m s
        then if leb (span d h m s / 86400) max_interval_days
          then ok (interval_of (span d h m s))
          else err too_many_days
        else err field_too_large)
unfolding normalize
normalize_lem d h m s = ground arith

-- A printed duration whose fields are int64 values is converted to the interval of its span if
-- each field and the days of the span are at most 99999999, and is refused if not, with the error
-- of the check that fails first. No sum wraps around.
pub iso8601_to_cim_interval-duration :
    (d h m s : ℕ)
    → d ≤ max_int64
    → h ≤ max_int64
    → m ≤ max_int64
    → s ≤ max_int64
    → iso8601_to_cim_interval (duration d h m s) ≡ (
        if small_fields d h m s
        then if leb (span d h m s / 86400) max_interval_days
          then ok (interval_of (span d h m s))
          else err too_many_days
        else err field_too_large)
unfolding iso8601_to_cim_interval
iso8601_to_cim_interval-duration d h m s bd bh bm bs =
    rw (not-interval_fields-duration d h m s, iso8601_to_cim_interval)
      (convert_duration-duration d h m s bd bh bm bs ∙ normalize_lem d h m s)
