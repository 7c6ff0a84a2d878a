-- ===== src/Wsman/Recorder/Scrub.antt =====
-- wsman/record.go: `scrub`, and what it does to the anonymizer.
use go_wsman.Common.{
  ℕ, zero, suc, ◌+◌, ◌-◌, ◌==◌, Bool, not, ◌&&◌, Option, none, some, List, [], ◌∷◌, ◌++◌, Bytes,
  codes, length, take, drop, if◌then◌else◌,
}
use go_wsman.Wsman.Recorder.{Prefix, scrubbed, mac, ip, guid, Anonymizer, placeholder_for}
use go_wsman.Wsman.Recorder.Patterns.{
  Matcher, is_alnum, before_is, next_is, literal_at, mac_element_at, private_ip_at, guid_at,
}

-- `anonHostPlaceholder`
abbrev pub anon_host_placeholder : Bytes
anon_host_placeholder = codes "hyperv-host.example.invalid"

-- what stands in place of a match, from the byte before it, the match, and the text behind it
abbrev pub Replacer : Type 0
Replacer = Option ℕ → Bytes → Bytes → Anonymizer → Bytes × Anonymizer

abbrev pub put_before : Bytes → Bytes × Anonymizer → Bytes × Anonymizer
put_before v (s, a) = (v ++ s, a)

-- `ReplaceAllStringFunc`, behind `skip` bytes of the last match
unfoldable pub replace_all :
    Matcher → Replacer → ℕ → Option ℕ → Bytes → Anonymizer → Bytes × Anonymizer
replace_all m f skip before [] a = ([], a)
replace_all m f (suc skip) before (c ∷ s) a = replace_all m f skip (some c) s a
replace_all m f zero before (c ∷ s) a = elim (m before (c ∷ s)) [
  | zero ↦ put_before (c ∷ []) (replace_all m f 0 (some c) s a)
  | suc n ↦
      (let (v, a') = f before (take (suc n) (c ∷ s)) (drop (suc n) (c ∷ s)) a in
        put_before v (replace_all m f n (some c) s a'))
]

-- `xmlEscapeForScrub`
unfoldable pub xml_escape_for_scrub : Bytes → Bytes
xml_escape_for_scrub [] = []
xml_escape_for_scrub (c ∷ s) =
    (if c == b'&'
      then codes "&amp;"
      else if c == b'<'
      then codes "&lt;"
      else if c == b'>'
      then codes "&gt;"
      else if c == b'"'
      then codes "&quot;"
      else if c == b'\''
      then codes "&apos;"
      else c ∷ [])
    ++ xml_escape_for_scrub s

-- `boundedByNonAlnum`
unfoldable pub bounded_by_non_alnum : Option ℕ → Bytes → Bool
bounded_by_non_alnum before behind =
    not (before_is is_alnum before) && not (next_is is_alnum behind)

abbrev pub always : Bytes → Replacer
always v before m behind a = (v, a)

-- the match itself where a letter or a digit stands beside it
abbrev pub if_bounded : Bytes → Replacer
if_bounded v before m behind a = (if bounded_by_non_alnum before behind then v else m, a)

-- `replaceFold`
unfoldable pub replace_fold : Bytes → Bytes → Bytes → Anonymizer → Bytes × Anonymizer
unfolding replace_all
replace_fold old replacement s a = replace_all (literal_at old) (always replacement) 0 none s a

-- `scrubVariants`
unfoldable pub scrub_variants : Bytes → Bytes → Bytes → Anonymizer → Bytes × Anonymizer
unfolding replace_fold xml_escape_for_scrub
scrub_variants value replacement s a =
    let (once, b) = replace_fold value replacement s a in
    replace_fold (xml_escape_for_scrub value) replacement once b

-- `scrubWordBounded` for one of the two forms, with `findWordBounded`
unfoldable pub replace_bounded : Bytes → Bytes → Bytes → Anonymizer → Bytes × Anonymizer
unfolding replace_all bounded_by_non_alnum
replace_bounded v replacement s a = replace_all (literal_at v) (if_bounded replacement) 0 none s a

-- `scrubWordBounded`
unfoldable pub scrub_word_bounded : Bytes → Bytes → Bytes → Anonymizer → Bytes × Anonymizer
unfolding replace_bounded xml_escape_for_scrub
scrub_word_bounded value replacement s a =
    let (once, b) = replace_bounded value replacement s a in
    replace_bounded (xml_escape_for_scrub value) replacement once b

-- the loop over the hosts
unfoldable pub scrub_hosts : List Bytes → Bytes → Anonymizer → Bytes × Anonymizer
unfolding scrub_variants
scrub_hosts [] s a = (s, a)
scrub_hosts (h ∷ hs) s a =
    let (t, b) = scrub_variants h anon_host_placeholder s a in scrub_hosts hs t b

module _ (lower : Bytes → Bytes) where
  -- the loop over the literals
  unfoldable pub scrub_literals : List Bytes → Bytes → Anonymizer → Bytes × Anonymizer
  unfolding scrub_word_bounded
  scrub_literals [] s a = (s, a)
  scrub_literals (lit ∷ lits) s a =
      let (v, b) = placeholder_for lower scrubbed lit a in
      let (t, c) = scrub_word_bounded lit v s b in scrub_literals lits t c

  abbrev pub named : Prefix → Replacer
  named p before m behind a = placeholder_for lower p m a

  -- the three groups of `macElementPattern`: the tag, twelve digits, and the two bytes behind them
  abbrev pub named_address : Replacer
  named_address before m behind a =
      let n = length m - 14 in
      let (v, b) = placeholder_for lower mac (take 12 (drop n m)) a in
      (take n m ++ (v ++ drop (n + 12) m), b)

  -- `scrub`
  unfoldable pub scrub : Bytes → Anonymizer → Bytes × Anonymizer
  unfolding scrub_hosts scrub_literals replace_all
  scrub [] a = ([], a)
  scrub (x ∷ xs) a =
      let (s₁, a₁) = scrub_hosts a.hosts (x ∷ xs) a in
      let (s₂, a₂) = scrub_literals a₁.literals s₁ a₁ in
      let (s₃, a₃) = replace_all mac_element_at named_address 0 none s₂ a₂ in
      let (s₄, a₄) = replace_all private_ip_at (named ip) 0 none s₃ a₃ in
      replace_all guid_at (named guid) 0 none s₄ a₄
