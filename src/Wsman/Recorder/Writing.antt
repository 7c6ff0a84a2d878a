-- ===== src/Wsman/Recorder/Writing.antt =====
-- wsman/record.go: what is behind a response that was recorded.
use go_wsman.Common.{
  ◌≡◌, refl, sym, ap, ◌∙◌, true, suc, some, List, [], ◌∷◌, ◌++◌, Bytes, codes, ok, Bool-cases,
  Result-cases, inl, inr, str_eq_refl,
}
use go_wsman.Wsman.Recorder.Scrub.{scrub}
use go_wsman.Wsman.Recorder.Files.{contains, strip_recorded_header}
use go_wsman.Wsman.Recorder.Recording.{
  Outside, Recording, read_file, recorded_header, with_anon, check_scrubbed, write_file, write,
  verify_recorded_hash,
}
use go_wsman.Wsman.Recorder.Classes.{ClassesKept, class_tokens_unchanged-ClassesKept}
use go_wsman.Wsman.Recorder.Header.{Documented, verify_recorded_hash-recorded_header}

module _ (out : Outside) where
  -- The scrubbed body is well-formed and has lost no class name; it stands in the last file of the
  -- recording, behind a header that fits it.
  pub record Written (body : Bytes) (r r' : Recording) : Type 0 where
    pub scrubbed : Bytes
    pub scrubbed_is : scrubbed ≡ (scrub out.lower body r.recorder.anon).0
    pub well_formed : out.well_formed scrubbed ≡ true
    pub classes : ClassesKept body scrubbed
    pub path : Bytes
    pub listed_last : r'.recorder.files ≡ r.recorder.files ++ path ∷ []
    pub content : Bytes
    pub on_disk : read_file path r'.disk ≡ some content
    pub body_read : strip_recorded_header content ≡ scrubbed
    pub passes : verify_recorded_hash out content ≡ ok tt

  file_read :
      (path content : Bytes) (disk : List (Bytes × Bytes))
      → read_file path ((path, content) ∷ disk) ≡ some content
  unfolding read_file
  file_read path content disk = rw (str_eq_refl path) refl

  checked :
      (body scrubbed : Bytes)
      → check_scrubbed out body scrubbed ≡ ok tt
      → (out.well_formed scrubbed ≡ true) × ClassesKept body scrubbed
  unfolding check_scrubbed
  checked body scrubbed e = elim (Bool-cases (out.well_formed scrubbed)) [
    | inl good ↦ (good, (class_tokens_unchanged-ClassesKept body scrubbed).0 (rw good at e))
    | inr bad ↦ (let e' = rw bad at e in cc)
  ]

  module _ (time : Bytes) (d : Documented out time) where
    file-Written :
        (body scrubbed : Bytes) (r s : Recording) {r' : Recording}
        → scrubbed ≡ (scrub out.lower body r.recorder.anon).0
        → s.recorder.files ≡ r.recorder.files
        → check_scrubbed out body scrubbed ≡ ok tt
        → write_file out time scrubbed s ≡ (ok tt, r')
        → Written body r r'
    unfolding write_file
    file-Written body scrubbed r s {r'} is_scrubbed same check e =
        elim (Bool-cases (out.writable (out.file_name (suc s.recorder.seq)))) [
          | inr closed ↦ (let e' = rw closed at e in cc)
          | inl open_file ↦
              (let e' = rw open_file at e in
                let path = out.file_name (suc s.recorder.seq) in
                let content = recorded_header out.advice time (out.sha256 scrubbed) ++ scrubbed in
                let (read, verified) = verify_recorded_hash-recorded_header out time d scrubbed in
                let (good, kept) = checked body scrubbed check in
                record {
                  scrubbed = scrubbed;
                  scrubbed_is = is_scrubbed;
                  well_formed = good;
                  classes = kept;
                  path = path;
                  listed_last =
                      sym (ap (λ p. p.1.recorder.files) e') ∙ ap (λ fs. fs ++ path ∷ []) same;
                  content = content;
                  on_disk =
                      ap (read_file path) (sym (ap (λ p. p.1.disk) e'))
                      ∙ file_read path content s.disk;
                  body_read = read;
                  passes = verified;
                })
        ]

    -- When `write` succeeds on a SOAP envelope, then the scrubbed response is well-formed and has all
    -- class names of the response, and it can be read from a file that is listed last, behind a
    -- header whose marker and digest pass the test.
    pub write-Written :
        (body : Bytes) (r r' : Recording)
        → contains body (codes "Envelope") ≡ true
        → write out time body r ≡ (ok tt, r')
        → Written body r r'
    unfolding write
    write-Written body r r' soap e =
        let (scrubbed, a) = scrub out.lower body r.recorder.anon in
        elim (Result-cases (check_scrubbed out body scrubbed)) [
          | inr (x, bad) ↦ (let e' = rw (bad, write) at (rw soap at e) in cc)
          | inl (u, good) ↦
              file-Written body scrubbed r (with_anon out a r) refl refl good
                (rw (good, write) at (rw soap at e))
        ]
