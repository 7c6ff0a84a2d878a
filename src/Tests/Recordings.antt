-- ===== src/Tests/Recordings.antt =====
-- The recorder on responses that are written out.
use go_wsman.Common.{
  str_eq, str_eq_iff, ◌≡◌, ◌≢◌, ◌↔◌, refl, true, false, Bool, none, some, Option, List, [], ◌∷◌,
  ◌++◌, Bytes, codes, ok, map, to_lower, all, length, arith, Result, ◌≤◌,
}
use go_wsman.Wsman.Recorder.{guid, ip, numbered, Url, Anonymizer, placeholder_for, new_anonymizer}
use go_wsman.Wsman.Recorder.Numbering.{Consistent, new_anonymizer-Consistent}
use go_wsman.Wsman.Recorder.Placeholders.{Room}
use go_wsman.Wsman.Recorder.Patterns.{is_alnum, mac_element_at}
use go_wsman.Wsman.Recorder.Scrub.{scrub, scrub_literals, replace_all, named_address}
use go_wsman.Wsman.Recorder.Naming.{
  after_texts, scrub-Consistent, placeholder_for_again, placeholder_for_differs,
}
use go_wsman.Wsman.Recorder.Files.{RecordError, strip_recorded_header, class_tokens_unchanged}
use go_wsman.Wsman.Recorder.Classes.{ClassesKept, class_tokens_unchanged-ClassesKept}
use go_wsman.Wsman.Recorder.Recording.{
  Outside, Recording, recorded_header, verify_recorded_hash, write,
}
use go_wsman.Wsman.Recorder.Header.{Documented, verify_recorded_hash-recorded_header}
use go_wsman.Wsman.Recorder.Writing.{Written, write-Written}

abbrev lower : Bytes → Bytes
lower s = map to_lower s

abbrev url : Url
url = record { scheme = codes "https"; host = codes "h1:5986"; hostname = codes "h1" }

abbrev fresh : Anonymizer
fresh = new_anonymizer (some url) (codes "vm01" ∷ codes "" ∷ [])

abbrev response : Bytes
response = codes "vm01 10.1.2.3"

literal_run : (scrub_literals lower (codes "v" ∷ []) (codes "v vo") fresh).0 ≡ codes "scrubbed-1 vo"
unfolding scrub new_anonymizer str_eq go_wsman.Wsman.Recorder.Patterns.literal_at placeholder_for
    go_wsman.Wsman.Recorder.Patterns.mac_element_at go_wsman.Common.expect
    go_wsman.Wsman.Recorder.Patterns.private_ip_at go_wsman.Wsman.Recorder.Patterns.guid_at
    go_wsman.Common.Decimal.format_uint
literal_run = refl

host_run : (scrub lower (codes "at H1:5986") fresh).0 ≡ codes "at hyperv-host.example.invalid"
unfolding scrub new_anonymizer str_eq go_wsman.Wsman.Recorder.Patterns.literal_at
    go_wsman.Wsman.Recorder.Patterns.mac_element_at go_wsman.Common.expect
    go_wsman.Wsman.Recorder.Patterns.private_ip_at go_wsman.Wsman.Recorder.Patterns.guid_at
host_run = refl

address_run :
    (replace_all mac_element_at
      (named_address lower)
      0
      none
      (codes "<Address>001122334455</")
      fresh).0
    ≡ codes "<Address>00155D000001</"
unfolding scrub new_anonymizer str_eq go_wsman.Wsman.Recorder.Patterns.literal_at
    go_wsman.Wsman.Recorder.Patterns.mac_element_at go_wsman.Common.expect
    go_wsman.Wsman.Recorder.Patterns.private_ip_at go_wsman.Wsman.Recorder.Patterns.guid_at
    placeholder_for go_wsman.Common.Hex.padded_hex
address_run = refl

private_run : (scrub lower (codes "10.1.2.3 110.1.2.3") fresh).0 ≡ codes "203.0.113.1 110.1.2.3"
unfolding scrub new_anonymizer str_eq go_wsman.Wsman.Recorder.Patterns.literal_at
    go_wsman.Wsman.Recorder.Patterns.mac_element_at go_wsman.Common.expect
    go_wsman.Wsman.Recorder.Patterns.private_ip_at go_wsman.Common.span_digits placeholder_for
    go_wsman.Wsman.Recorder.Patterns.guid_at go_wsman.Common.Decimal.format_uint
private_run = refl

guid_run :
    (scrub lower (codes "12345678-9abc-DEF0-1234-56789abcdef0") fresh).0
    ≡ codes "00000000-0000-4000-8000-000000000001"
unfolding scrub new_anonymizer str_eq go_wsman.Wsman.Recorder.Patterns.literal_at
    go_wsman.Wsman.Recorder.Patterns.mac_element_at go_wsman.Common.expect
    go_wsman.Wsman.Recorder.Patterns.private_ip_at go_wsman.Wsman.Recorder.Patterns.guid_at
    placeholder_for go_wsman.Common.Hex.padded_hex
guid_run = refl

scrub-Consistent_example : Consistent (after_texts lower (response ∷ response ∷ []) fresh)
scrub-Consistent_example =
    scrub-Consistent lower (some url) (codes "vm01" ∷ codes "" ∷ []) (response ∷ response ∷ [])

placeholder_for_again_example :
    (placeholder_for lower guid
      (codes "AB")
      (after_texts lower (response ∷ []) ((placeholder_for lower guid (codes "ab") fresh).1))).0
    ≡ (placeholder_for lower guid (codes "ab") fresh).0
placeholder_for_again_example =
    placeholder_for_again lower guid (codes "ab") (codes "AB") fresh (response ∷ []) refl

names_differ : lower (codes "10.0.0.1") ≢ lower (codes "10.0.0.2")
unfolding str_eq
names_differ e =
    let k = (str_eq_iff (lower (codes "10.0.0.1")) (lower (codes "10.0.0.2"))).1 e in cc

two_addresses : 2 ≤ 762
two_addresses = omega arith

Room-left : Room ip (
    (placeholder_for lower ip
        (codes "10.0.0.2")
        (after_texts lower [] ((placeholder_for lower ip (codes "10.0.0.1") fresh).1))).1.counters
      ip)
unfolding placeholder_for new_anonymizer go_wsman.Common.str_eq
Room-left = two_addresses

placeholder_for_differs_example :
    (placeholder_for lower ip
      (codes "10.0.0.2")
      (after_texts lower [] ((placeholder_for lower ip (codes "10.0.0.1") fresh).1))).0
    ≢ (placeholder_for lower ip (codes "10.0.0.1") fresh).0
placeholder_for_differs_example =
    placeholder_for_differs lower ip (codes "10.0.0.1") (codes "10.0.0.2") fresh []
      (new_anonymizer-Consistent (some url) (codes "vm01" ∷ codes "" ∷ [])) names_differ Room-left

abbrev digest : Bytes
digest = codes "0123456789abcdef0123456789abcdef0123456789abcdef0123456789abcdef"

abbrev out : Outside
out = record {
  lower = lower;
  well_formed = λ s. true;
  sha256 = λ s. digest;
  file_name = λ n. codes "dir/name.xml";
  writable = λ path. true;
  advice = codes "do not edit";
}

abbrev time : Bytes
time = codes "2026-01-02T03:04:05Z"

out-Documented : Documented out time
out-Documented = record { digits = λ s. refl; width = λ s. refl; timed = refl; inside = refl }

verify_recorded_hash-recorded_header_example :
    (strip_recorded_header (recorded_header (codes "do not edit") time digest ++ codes "<a/>")
      ≡ codes "<a/>")
    × (verify_recorded_hash out (recorded_header (codes "do not edit") time digest ++ codes "<a/>")
        ≡ ok tt)
verify_recorded_hash-recorded_header_example =
    verify_recorded_hash-recorded_header out time out-Documented (codes "<a/>")

abbrev started : Recording
started = record { recorder = record { anon = fresh; seq = 0; files = []; errs = [] }; disk = [] }

abbrev soap : Bytes
soap = codes "<Envelope>vm01 Msvm_Job</Envelope>"

abbrev recorded : Recording
recorded = (write out time soap started).1

write_run : write out time soap started ≡ (ok tt, recorded)
unfolding write go_wsman.Wsman.Recorder.Files.contains go_wsman.Common.behind_first
    go_wsman.Common.expect class_tokens_unchanged go_wsman.Wsman.Recorder.Patterns.find_texts
    go_wsman.Wsman.Recorder.Patterns.class_at go_wsman.Common.member scrub new_anonymizer
    go_wsman.Common.str_eq go_wsman.Wsman.Recorder.Patterns.literal_at
    go_wsman.Wsman.Recorder.Patterns.mac_element_at go_wsman.Wsman.Recorder.Patterns.private_ip_at
    go_wsman.Wsman.Recorder.Patterns.guid_at placeholder_for go_wsman.Common.Decimal.format_uint
write_run = refl

write-Written_example : Written out soap started recorded
unfolding write go_wsman.Wsman.Recorder.Files.contains go_wsman.Common.behind_first
    go_wsman.Common.expect
write-Written_example = write-Written out time out-Documented soap started recorded refl write_run

class_tokens_unchanged-ClassesKept_example :
    (class_tokens_unchanged (codes "a Msvm_Job") (codes "CIM_New Msvm_Job") ≡ ok tt)
    ↔ ClassesKept (codes "a Msvm_Job") (codes "CIM_New Msvm_Job")
class_tokens_unchanged-ClassesKept_example =
    class_tokens_unchanged-ClassesKept (codes "a Msvm_Job") (codes "CIM_New Msvm_Job")
