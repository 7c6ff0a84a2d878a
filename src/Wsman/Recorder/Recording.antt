-- ===== src/Wsman/Recorder/Recording.antt =====
-- wsman/record.go: a recording, from the responses to its files and their inspection.
use go_wsman.Common.{
  ℕ, suc, Bool, not, ◌&&◌, Option, none, some, List, [], ◌∷◌, ◌++◌, Bytes, codes, str_eq, is_empty,
  filter, map, if◌then◌else◌, Result, ok, err,
}
use go_wsman.Common.Results.{◌>>◌}
use go_wsman.Wsman.Recorder.{Url, Anonymizer}
use go_wsman.Wsman.Recorder.Patterns.{
  private_ip_at, mac_element_at, class_at, find_texts, find_spans,
}
use go_wsman.Wsman.Recorder.Scrub.{anon_host_placeholder, scrub}
use go_wsman.Wsman.Recorder.Files.{
  recorded_by_marker, RecordError, not_well_formed, not_written, not_read, no_marker, no_hash,
  hash_differs, leaked, contains, unique_strings, class_tokens_unchanged, strip_recorded_header,
  recorded_hash, address_digits, is_placeholder_mac, leaked_literals,
}

-- the files that can be read back, the newest first
abbrev pub Disk : Type 0
Disk = List (Bytes × Bytes)

-- `os.ReadFile`
unfoldable pub read_file : Bytes → Disk → Option Bytes
read_file path [] = none
read_file path ((p, content) ∷ disk) =
    let rest = read_file path disk in if str_eq p path then some content else rest

-- `recorder`, without the transport behind it
pub record Recorder : Type 0 where
  pub anon : Anonymizer
  pub seq : ℕ
  pub files : List Bytes
  pub errs : List RecordError

pub record Recording : Type 0 where
  pub recorder : Recorder
  pub disk : Disk

-- the advice of the header stands in Japanese, in UTF-8
abbrev pub refuse : Bool → RecordError → Result RecordError (Unit {0})
refuse bad e = if bad then err e else ok tt

-- what the recorder is given by the libraries and the file system
pub record Outside : Type 0 where
  -- `strings.ToLower`
  pub lower : Bytes → Bytes
  -- the decoder reads the whole text
  pub well_formed : Bytes → Bool
  -- the digest in hexadecimal digits
  pub sha256 : Bytes → Bytes
  -- the path of the file with the number
  pub file_name : ℕ → Bytes
  -- `os.WriteFile` succeeds
  pub writable : Bytes → Bool
  -- the advice that ends the header
  pub advice : Bytes

-- the header comment of a file
unfoldable pub recorded_header : Bytes → Bytes → Bytes → Bytes
recorded_header advice time hash =
    codes "<!--\n  "
    ++ (recorded_by_marker
        ++ (codes "\n  recorded-at: "
            ++ (time
                ++ (codes "\n  sha256: "
                    ++ (hash ++ (codes "\n\n" ++ (advice ++ codes "\n-->\n")))))))

module _ (out : Outside) where
  -- `write` behind the tests
  unfoldable pub write_file : Bytes → Bytes → Recording → Result RecordError (Unit {0}) × Recording
  unfolding recorded_header
  write_file time scrubbed r =
      let path = out.file_name (suc r.recorder.seq) in
      if out.writable path
      then (
        ok tt,
        record {
          recorder = record {
            anon = r.recorder.anon;
            seq = suc r.recorder.seq;
            files = r.recorder.files ++ path ∷ [];
            errs = r.recorder.errs;
          };
          disk = (path, recorded_header out.advice time (out.sha256 scrubbed) ++ scrubbed) ∷ r.disk;
        },
      )
      else (
        err (not_written path),
        record {
          recorder = record {
            anon = r.recorder.anon;
            seq = suc r.recorder.seq;
            files = r.recorder.files;
            errs = r.recorder.errs;
          };
          disk = r.disk;
        },
      )

  -- what `write` tests before it writes
  unfoldable pub check_scrubbed : Bytes → Bytes → Result RecordError (Unit {0})
  check_scrubbed body scrubbed = do
    refuse (not (out.well_formed scrubbed)) not_well_formed
    class_tokens_unchanged body scrubbed

  abbrev pub with_anon : Anonymizer → Recording → Recording
  with_anon a r = record {
    recorder = record {
      anon = a;
      seq = r.recorder.seq;
      files = r.recorder.files;
      errs = r.recorder.errs;
    };
    disk = r.disk;
  }

  -- `write`
  unfoldable pub write : Bytes → Bytes → Recording → Result RecordError (Unit {0}) × Recording
  unfolding write_file check_scrubbed
  write time body r =
      if not (contains body (codes "Envelope"))
      then (ok tt, r)
      else let (scrubbed, a) = scrub out.lower body r.recorder.anon in
        elim (check_scrubbed body scrubbed) [
          | err e ↦ (err e, with_anon a r)
          | ok u ↦ write_file time scrubbed (with_anon a r)
        ]

  abbrev add_error : Result RecordError (Unit {0}) × Recording → Recording
  add_error (ok u, r) = r
  add_error (err e, r) = record {
    recorder = record {
      anon = r.recorder.anon;
      seq = r.recorder.seq;
      files = r.recorder.files;
      errs = r.recorder.errs ++ e ∷ [];
    };
    disk = r.disk;
  }

  -- `RoundTrip`, behind the exchange: `none` for no response, no body, or a body that is cut off
  unfoldable pub record_response : Bytes → Option Bytes → Recording → Recording
  unfolding write
  record_response time none r = r
  record_response time (some body) r = add_error (write time body r)

  -- `VerifyRecordedHash`
  unfoldable pub verify_recorded_hash : Bytes → Result RecordError (Unit {0})
  verify_recorded_hash content = do
    refuse (not (contains content recorded_by_marker)) no_marker
    elim (recorded_hash content) [
      | none ↦ err no_hash
      | some m ↦ refuse (not (str_eq (out.sha256 (strip_recorded_header content)) m)) hash_differs
    ]

  abbrev leaked_host : Bytes → Option Url → List Bytes
  leaked_host body none = []
  leaked_host body (some u) =
      if not (is_empty u.hostname)
        && not (str_eq u.hostname anon_host_placeholder)
        && contains (out.lower body) (out.lower u.hostname)
      then u.hostname ∷ []
      else []

  -- `leaks` of `verifyRecorded`
  unfoldable pub leaks_of : Bytes → List Bytes → Option Url → List Bytes
  unfolding address_digits is_placeholder_mac leaked_literals
  leaks_of body literals url =
      find_texts private_ip_at 0 none body
      ++ (filter (λ digits. not (is_placeholder_mac digits))
            (map address_digits (find_texts mac_element_at 0 none body))
          ++ (leaked_literals body (find_spans class_at 0 0 none body) literals
              ++ leaked_host body url))

  abbrev no_leaks : List Bytes → Result RecordError (Unit {0})
  no_leaks [] = ok tt
  no_leaks (l ∷ ls) = err (leaked (unique_strings (l ∷ ls)))

  -- `verifyRecorded`
  unfoldable pub verify_recorded : Bytes → List Bytes → Option Url → Result RecordError (Unit {0})
  unfolding verify_recorded_hash leaks_of
  verify_recorded content literals url = do
    verify_recorded_hash content
    no_leaks (leaks_of (strip_recorded_header content) literals url)

  -- the loop of `StopRecording`
  unfoldable pub verify_files :
      List Bytes → Disk → List Bytes → Option Url → Result RecordError (Unit {0})
  unfolding verify_recorded read_file
  verify_files [] disk literals url = ok tt
  verify_files (path ∷ paths) disk literals url = elim (read_file path disk) [
    | none ↦ err (not_read path)
    | some content ↦ verify_recorded content literals url >> verify_files paths disk literals url
  ]

  abbrev first_error : List RecordError → Result RecordError (Unit {0})
  first_error [] = ok tt
  first_error (e ∷ es) = err e

  -- `StopRecording`, of a client that records
  unfoldable pub stop_recording :
      List Bytes → Option Url → Recording → Result RecordError (Unit {0})
  unfolding verify_files
  stop_recording literals url r = do
    first_error r.recorder.errs
    verify_files r.recorder.files r.disk literals url
