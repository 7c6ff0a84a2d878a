-- ===== src/Wsman/Recorder/Naming.antt =====
-- wsman/record.go: what the placeholders of a recording promise.
use mathlib.Core.Path.{subst}
use go_wsman.Common.{
  arith, ◌≤◌, ◌≢◌, ℕ, suc, ◌≡◌, refl, sym, ap, ◌∙◌, inl, inr, Option, none, some, List, [], ◌∷◌,
  Bytes, Option-cases, Bool-cases, str_eq, str_eq_iff, str_eq_refl,
}
use go_wsman.Wsman.Recorder.{
  Entry, Prefix, scrubbed, mac, ip, guid, Url, Anonymizer, same_prefix, is_key, find_placeholder,
  numbered, take_number, placeholder_for, new_anonymizer,
}
use go_wsman.Wsman.Recorder.Numbering.{
  count_of, find_placeholder-Apart, Apart, same_prefix_iff, Assigned, Consistent,
  new_anonymizer-Consistent, count_up-count_of,
}
use go_wsman.Wsman.Recorder.Placeholders.{Room, numbered_inj}
use go_wsman.Wsman.Recorder.Scrub.{scrub}
use go_wsman.Wsman.Recorder.Stable.{scrub_keeps}

take_number-Consistent :
    (p : Prefix) (name : Bytes) (a : Anonymizer)
    → Consistent a
    → find_placeholder p name a.replaced ≡ none
    → Consistent ((take_number p name a).1)
unfolding take_number Assigned
take_number-Consistent p name a c fresh = record {
  counted = λ q. count_up-count_of p q a.replaced a.counters name _ (c.counted q);
  entries = (ap (λ n. numbered p (suc n)) (c.counted p), (fresh, c.entries));
}

newest_found :
    (p : Prefix) (name : Bytes) (a : Anonymizer)
    → find_placeholder p name ((take_number p name a).1.replaced) ≡ some ((take_number p name a).0)
unfolding take_number find_placeholder is_key
newest_found p name a = rw ((same_prefix_iff p p).1 refl) (rw (str_eq_refl name) refl)

other_found :
    (p q : Prefix) (name other : Bytes) (a : Anonymizer) {v : Bytes}
    → find_placeholder p name a.replaced ≡ some v
    → find_placeholder q other a.replaced ≡ none
    → find_placeholder p name ((take_number q other a).1.replaced) ≡ some v
unfolding take_number find_placeholder is_key
other_found p q name other a {v} e fresh = elim (Bool-cases (same_prefix q p)) [
  | inr differs ↦ rw differs e
  | inl same ↦ elim (Bool-cases (str_eq other name)) [
    | inr differs ↦ rw same (rw differs e)
    | inl this ↦
        (let gone : find_placeholder p name a.replaced ≡ none =
            subst (λ x. find_placeholder x name a.replaced ≡ none) ((same_prefix_iff q p).0 same)
              (subst (λ x. find_placeholder q x a.replaced ≡ none) ((str_eq_iff other name).0 this)
                fresh) in
          absurd (let clash : none ≡ some v = sym gone ∙ e in cc))
  ]
]

smaller-Room : (p : Prefix) (n m : ℕ) → n ≤ m → Room p m → Room p n
smaller-Room ip n m h r = omega (arith, h, r)
smaller-Room scrubbed n m h r = tt
smaller-Room mac n m h r = tt
smaller-Room guid n m h r = tt

numbers_clash :
    (p : Prefix) (es : List Entry) (v w : Bytes) → Apart p es v w → Room p (count_of p es) → v ≢ w
numbers_clash p es v w x room same = x.differ (
    numbered_inj p x.left x.right x.left_low x.right_low
      (smaller-Room p x.left (count_of p es) x.left_high room)
      (smaller-Room p x.right (count_of p es) x.right_high room)
      (sym x.left_is ∙ same ∙ x.right_is))

module _ (lower : Bytes → Bytes) where
  found_again :
      (p : Prefix) (s : Bytes) (a : Anonymizer) {v : Bytes}
      → find_placeholder p (lower s) a.replaced ≡ some v
      → placeholder_for lower p s a ≡ (v, a)
  unfolding placeholder_for
  found_again p s a e = rw (e, placeholder_for) refl

  named_anew :
      (p : Prefix) (s : Bytes) (a : Anonymizer)
      → find_placeholder p (lower s) a.replaced ≡ none
      → placeholder_for lower p s a ≡ take_number p (lower s) a
  unfolding placeholder_for
  named_anew p s a e = rw (e, placeholder_for) refl

  placeholder_for-Consistent :
      (p : Prefix) (s : Bytes) (a : Anonymizer)
      → Consistent a
      → Consistent ((placeholder_for lower p s a).1)
  placeholder_for-Consistent p s a c =
      elim (Option-cases (find_placeholder p (lower s) a.replaced)) [
        | inr (v, found) ↦ rw (found_again p s a found) c
        | inl fresh ↦ rw (named_anew p s a fresh) (take_number-Consistent p (lower s) a c fresh)
      ]

  found_after :
      (p : Prefix) (s : Bytes) (a : Anonymizer)
      → find_placeholder p (lower s) ((placeholder_for lower p s a).1.replaced)
        ≡ some ((placeholder_for lower p s a).0)
  found_after p s a = elim (Option-cases (find_placeholder p (lower s) a.replaced)) [
    | inr (v, found) ↦ rw (found_again p s a found) found
    | inl fresh ↦ rw (named_anew p s a fresh) (newest_found p (lower s) a)
  ]

  still_found :
      (p : Prefix) (name : Bytes) (v : Bytes) (q : Prefix) (s : Bytes) (a : Anonymizer)
      → find_placeholder p name a.replaced ≡ some v
      → find_placeholder p name ((placeholder_for lower q s a).1.replaced) ≡ some v
  still_found p name v q s a e = elim (Option-cases (find_placeholder q (lower s) a.replaced)) [
    | inr (w, found) ↦ rw (found_again q s a found) e
    | inl fresh ↦ rw (named_anew q s a fresh) (other_found p q name (lower s) a e fresh)
  ]

  -- the anonymizer behind the texts that are scrubbed one after the other
  abbrev pub after_texts : List Bytes → Anonymizer → Anonymizer
  after_texts [] a = a
  after_texts (s ∷ ss) a = after_texts ss ((scrub lower s a).1)

  after_texts_found :
      (p : Prefix) (name v : Bytes) (ss : List Bytes) (a : Anonymizer)
      → find_placeholder p name a.replaced ≡ some v
      → find_placeholder p name (after_texts ss a).replaced ≡ some v
  after_texts_found p name v [] a e = e
  after_texts_found p name v (s ∷ ss) a e = after_texts_found p name v ss ((scrub lower s a).1) (
      scrub_keeps (λ b. find_placeholder p name b.replaced ≡ some v) lower
        (λ q t b. still_found p name v q t b) s a e)

  after_texts-Consistent :
      (ss : List Bytes) (a : Anonymizer) → Consistent a → Consistent (after_texts ss a)
  after_texts-Consistent [] a c = c
  after_texts-Consistent (s ∷ ss) a c =
      after_texts-Consistent ss ((scrub lower s a).1)
        (scrub_keeps Consistent lower placeholder_for-Consistent s a c)

  -- In every state that a recording reaches by scrubbing responses, the counter of each prefix counts
  -- its placeholders, no name has two of them, and the placeholders of a prefix carry the numbers
  -- from 1 on in the order in which the names were met.
  pub scrub-Consistent :
      (url : Option Url) (literals : List Bytes) (texts : List Bytes)
      → Consistent (after_texts texts (new_anonymizer url literals))
  scrub-Consistent url literals texts =
      after_texts-Consistent texts (new_anonymizer url literals)
        (new_anonymizer-Consistent url literals)

  -- Once a name has a placeholder, the name has it again behind any responses that are scrubbed in
  -- between, also if it is spelled with other upper and lower case letters.
  pub placeholder_for_again :
      (p : Prefix) (s t : Bytes) (a : Anonymizer) (texts : List Bytes)
      → lower s ≡ lower t
      → (placeholder_for lower p t (after_texts texts ((placeholder_for lower p s a).1))).0
        ≡ (placeholder_for lower p s a).0
  placeholder_for_again p s t a texts same =
      let found : find_placeholder p (lower t)
            (after_texts texts ((placeholder_for lower p s a).1)).replaced
          ≡ some ((placeholder_for lower p s a).0) =
        after_texts_found p (lower t) _ texts ((placeholder_for lower p s a).1)
          (rw same at (found_after p s a)) in
      ap (λ r. r.0) (found_again p t (after_texts texts ((placeholder_for lower p s a).1)) found)

  -- Of two names of one prefix that differ in more than the case of their letters, the one that is met
  -- in a state of a recording and the one that is met later, behind any responses, have different
  -- placeholders, as long as a recording does not name more than 762 addresses.
  pub placeholder_for_differs :
      (p : Prefix) (s t : Bytes) (a : Anonymizer) (texts : List Bytes)
      → Consistent a
      → lower s ≢ lower t
      → Room p (
          (placeholder_for lower p t
              (after_texts texts ((placeholder_for lower p s a).1))).1.counters
            p)
      → (placeholder_for lower p t (after_texts texts ((placeholder_for lower p s a).1))).0
        ≢ (placeholder_for lower p s a).0
  placeholder_for_differs p s t a texts c differ room same =
      let b = after_texts texts ((placeholder_for lower p s a).1) in
      let v = (placeholder_for lower p s a).0 in
      let w = (placeholder_for lower p t b).0 in
      let es = (placeholder_for lower p t b).1.replaced in
      let consistent =
        placeholder_for-Consistent p t b
          (after_texts-Consistent texts _ (placeholder_for-Consistent p s a c)) in
      let first =
        still_found p (lower s) v p t b
          (after_texts_found p (lower s) v texts _ (found_after p s a)) in
      numbers_clash p es v w
        (find_placeholder-Apart p (lower s) (lower t) es consistent.entries first
          (found_after p t b) differ)
        (subst (Room p) (consistent.counted p) room) (sym same)
