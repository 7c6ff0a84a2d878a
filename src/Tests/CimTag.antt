-- ===== src/Tests/CimTag.antt =====
-- hyperv/cimtag.go at the texts that a host sends.
use go_wsman.Common.{
  true, span_digits, str_eq, expect, member, take_digits, split, cut, ◌≡◌, refl, codes, ok, arith,
}
use go_wsman.Common.Decimal.{scan, fixed, padded, parse_uint}
use go_wsman.Hyperv.CimTag.{
  print_interval, normalize, duration_numbers, duration_fields, convert_duration, interval_fields,
  parse_cim_tag, iso8601_to_cim_interval,
}
use go_wsman.Hyperv.CimTag.Interval.{
  Converts, iso8601_to_cim_interval-Converts, iso8601_to_cim_interval_idem,
}
use go_wsman.Hyperv.CimTag.Duration.{duration, interval_of, iso8601_to_cim_interval-duration}

tag_run : parse_cim_tag (codes "Timeout,datetime") ≡ (codes "Timeout", true)
unfolding parse_cim_tag cut split member str_eq
tag_run = refl

iso_run : iso8601_to_cim_interval (codes "P0DT0H45M90S") ≡ ok (codes "00000000004630.000000:000")
unfolding iso8601_to_cim_interval interval_fields take_digits expect span_digits convert_duration
    duration_fields duration_numbers normalize print_interval padded fixed parse_uint scan
iso_run = refl

iso8601_to_cim_interval-Converts_example :
    Converts (codes "P0DT0H45M90S") (codes "00000000004630.000000:000")
iso8601_to_cim_interval-Converts_example =
    iso8601_to_cim_interval-Converts (codes "P0DT0H45M90S") iso_run

iso8601_to_cim_interval_idem_example :
    iso8601_to_cim_interval (codes "00000000004630.000000:000")
    ≡ ok (codes "00000000004630.000000:000")
iso8601_to_cim_interval_idem_example = iso8601_to_cim_interval_idem (codes "P0DT0H45M90S") iso_run

iso8601_to_cim_interval-duration_example :
    iso8601_to_cim_interval (duration 1 25 90 7) ≡ ok (interval_of 181807)
iso8601_to_cim_interval-duration_example =
    iso8601_to_cim_interval-duration 1 25 90 7 (omega arith) (omega arith) (omega arith)
      (omega arith)
