-- ===== src/Hyperv/CimTag.antt =====
-- hyperv/cimtag.go: the struct tags `cim:"Name,datetime"`, and the conversion of an ISO 8601
-- duration (what the host returns) to a CIM interval (what the host accepts).
-- The two regular expressions are the parsers `interval_fields` and `duration_fields`, which
-- return the submatches; an `int64` that the code can make negative is a number modulo 2 ^ 64.
pub mod Interval
pub mod Duration
use go_wsman.Common.{
  ℕ, suc, ◌+◌, ◌-◌, ◌*◌, ◌/◌, ◌%◌, ◌^◌, ◌≡◌, Bool, true, false, ◌||◌, Option, none, some, List, [],
  ◌∷◌, ◌++◌, leb, ltb, if◌then◌else◌, Bytes, codes, cut, split, member, expect, take_digits,
  span_digits, is_empty, Result, ok, err,
}
use go_wsman.Common.Results
use go_wsman.Common.Options.{◌>>=◌}
use go_wsman.Common.Decimal.{parse_uint, padded}

-- `cimTagOptionDatetime`
abbrev pub datetime_option : Bytes
datetime_option = codes "datetime"

-- `parseCimTag`: the name of the property, and whether an option says datetime
unfoldable pub parse_cim_tag : Bytes → Bytes × Bool
parse_cim_tag tag =
    let (name, opts) = cut b',' tag in (name, member datetime_option (split b',' opts))

-- `maxIntervalDays`
abbrev pub max_interval_days : ℕ
max_interval_days = 99999999

abbrev pub max_int64 : ℕ
max_int64 = 2 ^ 63 - 1

pub data IntervalError : Type 0 where
  not_interval : IntervalError
  not_a_number : IntervalError
  field_out_of_range : IntervalError
  not_duration : IntervalError
  field_too_large : IntervalError
  too_many_days : IntervalError

-- the submatches of `cimIntervalPattern`, days first
unfoldable pub interval_fields : Bytes → Option (Bytes × Bytes × Bytes × Bytes)
interval_fields s = do
  (days, s) ← take_digits 8 s
  (hours, s) ← take_digits 2 s
  (minutes, s) ← take_digits 2 s
  (seconds, s) ← take_digits 2 s
  s ← expect (codes ".") s
  (_, s) ← take_digits 6 s
  s ← expect (codes ":000") s
  if is_empty s then some (days, hours, minutes, seconds) else none

-- one round of the loop of `validateCIMInterval`
unfoldable pub check_field : Bytes → ℕ → Result IntervalError (Unit {0})
check_field raw max = elim (parse_uint max_int64 raw) [
  | none ↦ err not_a_number
  | some v ↦ if ltb max v then err field_out_of_range else ok tt
]

-- `validateCIMInterval`
unfoldable pub validate_cim_interval : Bytes → Result IntervalError (Unit {0})
validate_cim_interval s = elim (interval_fields s) [
  | none ↦ err not_interval
  | some (_, hours, minutes, seconds) ↦
      Results.◌>>◌ (check_field hours 23)
        (Results.◌>>◌ (check_field minutes 59) (check_field seconds 59))
]

-- one or more digits, which the pattern's next literal ends
unfoldable pub some_digits : Bytes → Option (Bytes × Bytes)
some_digits s = let (a, r) = span_digits s in if is_empty a then none else some (a, r)

-- the submatches of `iso8601DurationPattern`
unfoldable pub duration_fields : Bytes → Option (Bytes × Bytes × Bytes × Bytes)
unfolding some_digits
duration_fields s = do
  s ← expect (codes "P") s
  (days, s) ← some_digits s
  s ← expect (codes "DT") s
  (hours, s) ← some_digits s
  s ← expect (codes "H") s
  (minutes, s) ← some_digits s
  s ← expect (codes "M") s
  (seconds, s) ← some_digits s
  s ← expect (codes "S") s
  if is_empty s then some (days, hours, minutes, seconds) else none

-- the loop that fills `nums`
unfoldable pub duration_numbers : Bytes × Bytes × Bytes × Bytes → Option (ℕ × ℕ × ℕ × ℕ)
duration_numbers (rd, rh, rm, rs) = do
  d ← parse_uint max_int64 rd
  h ← parse_uint max_int64 rh
  m ← parse_uint max_int64 rm
  s ← parse_uint max_int64 rs
  some (d, h, m, s)

-- `fmt.Sprintf("%08d%02d%02d%02d.%06d:000", days, hours, minutes, seconds, 0)`
unfoldable pub print_interval : ℕ → ℕ → ℕ → ℕ → Bytes
print_interval d h m s =
    padded 8 d
    ++ (padded 2 h ++ (padded 2 m ++ (padded 2 s ++ (codes "." ++ (padded 6 0 ++ codes ":000")))))

-- what `iso8601ToCIMInterval` does with the four numbers; `total` is an int64
unfoldable pub normalize : ℕ → ℕ → ℕ → ℕ → Result IntervalError Bytes
normalize d h m s =
    if ltb max_interval_days d
      || ltb max_interval_days h
      || ltb max_interval_days m
      || ltb max_interval_days s
    then err field_too_large
    else let total = (d * 24 * 3600 + h * 3600 + m * 60 + s) % 2 ^ 64 in
      let days = total / (24 * 3600) in
      let rem = total % (24 * 3600) in
      if ltb max_interval_days days
      then err too_many_days
      else ok (print_interval days (rem / 3600) (rem % 3600 / 60) (rem % 60))

-- the branch of `iso8601ToCIMInterval` for a text that is no CIM interval
unfoldable pub convert_duration : Bytes → Result IntervalError Bytes
convert_duration s = elim (duration_fields s) [
  | none ↦ err not_duration
  | some fields ↦ elim (duration_numbers fields) [
    | none ↦ err not_a_number
    | some (d, h, m, s') ↦ normalize d h m s'
  ]
]

-- `iso8601ToCIMInterval`; the code returns `s` beside the error of the validation, too
unfoldable pub iso8601_to_cim_interval : Bytes → Result IntervalError Bytes
iso8601_to_cim_interval s = elim (interval_fields s) [
  | some _ ↦ Results.◌>>◌ (validate_cim_interval s) (ok s)
  | none ↦ convert_duration s
]
