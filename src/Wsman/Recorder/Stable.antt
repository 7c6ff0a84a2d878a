-- ===== src/Wsman/Recorder/Stable.antt =====
-- wsman/record.go: what no scrubbed text changes in the anonymizer.
use go_wsman.Common.{
  ℕ, zero, suc, ◌-◌, ◌≡◌, refl, ◌⊎◌, inl, inr, Option, none, some, List, [], ◌∷◌, Bytes, take, drop,
  length,
}
use go_wsman.Wsman.Recorder.{Prefix, scrubbed, mac, ip, guid, Anonymizer, placeholder_for}
use go_wsman.Wsman.Recorder.Patterns.{Matcher, mac_element_at, private_ip_at, guid_at, literal_at}
use go_wsman.Wsman.Recorder.Scrub.{
  anon_host_placeholder, Replacer, replace_all, always, if_bounded, scrub_variants,
  scrub_word_bounded, replace_fold, replace_bounded, xml_escape_for_scrub, scrub_hosts,
  scrub_literals, named, named_address, scrub,
}

nat_cases : (n : ℕ) → (n ≡ 0) ⊎ ((k : ℕ) × (n ≡ suc k))
nat_cases zero = inl refl
nat_cases (suc k) = inr (k, refl)

module _ {ℓ} (P : Anonymizer → Type ℓ) where
  -- The replacer keeps the predicate.
  abbrev KeptBy : Replacer → Type ℓ
  KeptBy f =
      (before : Option ℕ) (m behind : Bytes) (a : Anonymizer) → P a → P ((f before m behind a).1)

  replace_all_keeps :
      (m : Matcher) (f : Replacer) (skip : ℕ) (before : Option ℕ) (s : Bytes) (a : Anonymizer)
      → KeptBy f
      → P a
      → P ((replace_all m f skip before s a).1)
  unfolding replace_all
  replace_all_keeps m f skip before [] a k h = h
  replace_all_keeps m f (suc skip) before (c ∷ s) a k h =
      replace_all_keeps m f skip (some c) s a k h
  replace_all_keeps m f zero before (c ∷ s) a k h = elim (nat_cases (m before (c ∷ s))) [
    | inl none_here ↦ rw (none_here, replace_all) (replace_all_keeps m f 0 (some c) s a k h)
    | inr (n, here) ↦
        rw (here, replace_all)
          (replace_all_keeps m f n (some c) s
            ((f before (take (suc n) (c ∷ s)) (drop (suc n) (c ∷ s)) a).1) k
            (k before (take (suc n) (c ∷ s)) (drop (suc n) (c ∷ s)) a h))
  ]

  scrub_hosts_keeps :
      (hs : List Bytes) (s : Bytes) (a : Anonymizer) → P a → P ((scrub_hosts hs s a).1)
  unfolding scrub_hosts scrub_variants replace_fold
  scrub_hosts_keeps [] s a h = h
  scrub_hosts_keeps (x ∷ hs) s a h = scrub_hosts_keeps hs _ _ (
      replace_all_keeps (literal_at (xml_escape_for_scrub x)) (always anon_host_placeholder) 0 none
        _ _ (λ b m r a h. h)
        (replace_all_keeps (literal_at x) (always anon_host_placeholder) 0 none s a (λ b m r a h. h)
          h))

  module _ (lower : Bytes → Bytes)
      (keeps : (p : Prefix) (s : Bytes) (a : Anonymizer)
        → P a
        → P ((placeholder_for lower p s a).1)) where
    scrub_literals_keeps :
        (lits : List Bytes) (s : Bytes) (a : Anonymizer)
        → P a
        → P ((scrub_literals lower lits s a).1)
    unfolding scrub_literals scrub_word_bounded replace_bounded
    scrub_literals_keeps [] s a h = h
    scrub_literals_keeps (lit ∷ lits) s a h =
        let v = (placeholder_for lower scrubbed lit a).0 in
        scrub_literals_keeps lits _ _ (
          replace_all_keeps (literal_at (xml_escape_for_scrub lit)) (if_bounded v) 0 none _ _
            (λ b m r a h. h)
            (replace_all_keeps (literal_at lit) (if_bounded v) 0 none s _ (λ b m r a h. h)
              (keeps scrubbed lit a h)))

    -- What every placeholder keeps, a scrubbed text keeps.
    pub scrub_keeps : (s : Bytes) (a : Anonymizer) → P a → P ((scrub lower s a).1)
    unfolding scrub
    scrub_keeps [] a h = h
    scrub_keeps (x ∷ xs) a h =
        let one = scrub_hosts a.hosts (x ∷ xs) a in
        let two = scrub_literals lower one.1.literals one.0 one.1 in
        let three = replace_all mac_element_at (named_address lower) 0 none two.0 two.1 in
        let four = replace_all private_ip_at (named lower ip) 0 none three.0 three.1 in
        replace_all_keeps guid_at (named lower guid) 0 none four.0 four.1
          (λ before m r b k. keeps guid m b k)
          (replace_all_keeps private_ip_at (named lower ip) 0 none three.0 three.1
            (λ before m r b k. keeps ip m b k)
            (replace_all_keeps mac_element_at (named_address lower) 0 none two.0 two.1
              (λ before m r b k. keeps mac (take 12 (drop (length m - 14) m)) b k)
              (scrub_literals_keeps one.1.literals one.0 one.1
                (scrub_hosts_keeps a.hosts (x ∷ xs) a h))))
