-- ===== src/Wsman/Recorder/Classes.antt =====
-- wsman/record.go: the class names that a scrubbed text must keep.
use mathlib.Core.Path.{subst}
use go_wsman.Common.{
  ◌≡◌, ◌≢◌, ◌⊎◌, none, refl, sym, ap, ◌∙◌, ◌↔◌, Bool, true, false, not, ◌&&◌, ◌||◌, List, [], ◌∷◌,
  Bytes, str_eq, str_eq_iff, str_eq_refl, str_lt, member, All, ok, Bool-cases, inl, inr,
}
use go_wsman.Common.Unique.{filter_none, none_filtered}
use go_wsman.Wsman.Recorder.Patterns.{class_at, find_texts}
use go_wsman.Wsman.Recorder.Files.{
  unique_behind, unique_strings, insert_string, sort_strings, class_tokens, lost_class_tokens,
  class_tokens_unchanged,
}

and_false : (b : Bool) → (b && false) ≡ false
and_false true = refl
and_false false = refl

and_true : (b : Bool) → (b && true) ≡ b
and_true true = refl
and_true false = refl

or_true : (b : Bool) → (b || true) ≡ true
or_true true = refl
or_true false = refl

not-false : (b : Bool) → not b ≡ false → b ≡ true
not-false true e = refl
not-false false e = cc

List-cases : (xs : List Bytes) → (xs ≡ []) ⊎ ((y : Bytes) × (ys : List Bytes) × (xs ≡ y ∷ ys))
List-cases [] = inl refl
List-cases (y ∷ ys) = inr (y, ys, refl)

seen_later : (t x : Bytes) (seen : List Bytes) → str_eq x t ≡ true → member x seen ≡ member t seen
seen_later t x seen e = ap (λ y. member y seen) ((str_eq_iff x t).0 e)

member-unique_behind :
    (t : Bytes) (seen xs : List Bytes)
    → member t (unique_behind seen xs) ≡ (member t xs && not (member t seen))
unfolding unique_behind member
member-unique_behind t seen [] = refl
member-unique_behind t seen (x ∷ xs) = elim (Bool-cases (member x seen)) [
  | inl old ↦ elim (Bool-cases (str_eq x t)) [
    | inl same ↦
        (let there : member t seen ≡ true = sym (seen_later t x seen same) ∙ old in
          rw old (rw same (member-unique_behind t seen xs ∙ (rw there (and_false (member t xs))))))
    | inr other ↦ rw old (rw other (member-unique_behind t seen xs))
  ]
  | inr new ↦ elim (Bool-cases (str_eq x t)) [
    | inl same ↦
        (let missing : member t seen ≡ false = sym (seen_later t x seen same) ∙ new in
          rw new (rw same (rw missing refl)))
    | inr other ↦ rw new (rw other (rw other at (member-unique_behind t (x ∷ seen) xs)))
  ]
]

-- `uniqueStrings` keeps every text.
pub member-unique_strings :
    (t : Bytes) (xs : List Bytes) → member t (unique_strings xs) ≡ member t xs
unfolding unique_strings member
member-unique_strings t xs = member-unique_behind t [] xs ∙ and_true (member t xs)

inserted : (s : Bytes) (xs : List Bytes) → insert_string s xs ≢ []
unfolding insert_string
inserted s [] e = cc
inserted s (t ∷ ts) e = elim (Bool-cases (str_lt t s)) [
  | inl less ↦ (let e' = rw less at e in cc)
  | inr more ↦ (let e' = rw more at e in cc)
]

sorted_nil : (xs : List Bytes) → sort_strings xs ≡ [] → xs ≡ []
unfolding sort_strings
sorted_nil [] e = refl
sorted_nil (x ∷ xs) e = absurd (inserted x (sort_strings xs) e)

module _ {ℓ} (P : Bytes → Type ℓ) where
  at_member : (t : Bytes) (xs : List Bytes) → All P xs → member t xs ≡ true → P t
  unfolding member
  at_member t [] h e = cc
  at_member t (x ∷ xs) (px, h) e = elim (Bool-cases (str_eq x t)) [
    | inl same ↦ subst P ((str_eq_iff x t).0 same) px
    | inr other ↦ at_member t xs h (rw other at e)
  ]

  All-members : (xs : List Bytes) → ((t : Bytes) → member t xs ≡ true → P t) → All P xs
  unfolding member
  All-members [] h = tt
  All-members (x ∷ xs) h =
      (h x (rw (str_eq_refl x) refl), All-members xs (λ t e. h t (rw e (or_true (str_eq x t)))))

abbrev class_names : Bytes → List Bytes
class_names s = find_texts class_at 0 none s

-- Each class name of the one text is one of the other.
abbrev pub ClassesKept : Bytes → Bytes → Type 0
ClassesKept before after =
    (t : Bytes) → member t (class_names before) ≡ true → member t (class_names after) ≡ true

lost_nil : (before after : Bytes) → lost_class_tokens before after ≡ [] → ClassesKept before after
unfolding lost_class_tokens
lost_nil before after e t m =
    let kept =
      at_member (λ t. not (member t (class_tokens after)) ≡ false) t (class_tokens before)
        (none_filtered (λ t. not (member t (class_tokens after))) (class_tokens before)
          (sorted_nil _ e))
        (member-unique_strings t (class_names before) ∙ m) in
    sym (member-unique_strings t (class_names after)) ∙ not-false _ kept

nil_lost : (before after : Bytes) → ClassesKept before after → lost_class_tokens before after ≡ []
unfolding lost_class_tokens sort_strings
nil_lost before after k =
    rw
      (filter_none (λ t. not (member t (class_tokens after))) (class_tokens before)
        (All-members (λ t. not (member t (class_tokens after)) ≡ false) (class_tokens before)
          (λ t m. ap not (
            member-unique_strings t (class_names after)
            ∙ k t (sym (member-unique_strings t (class_names before)) ∙ m)))))
      refl

unchanged_only_if :
    (before after : Bytes)
    → class_tokens_unchanged before after ≡ ok tt
    → lost_class_tokens before after ≡ []
unfolding class_tokens_unchanged
unchanged_only_if before after e = elim (List-cases (lost_class_tokens before after)) [
  | inl empty ↦ empty
  | inr (t, ts, some_lost) ↦ (let e' = rw (some_lost, class_tokens_unchanged) at e in cc)
]

-- The test of the class names passes exactly if every class name of the response is still a class
-- name of the scrubbed text; that the scrubbed text has new ones does not matter.
pub class_tokens_unchanged-ClassesKept :
    (before after : Bytes)
    → (class_tokens_unchanged before after ≡ ok tt) ↔ ClassesKept before after
unfolding class_tokens_unchanged
class_tokens_unchanged-ClassesKept before after = (
  (λ e. lost_nil before after (unchanged_only_if before after e)),
  (λ k. rw (nil_lost before after k, class_tokens_unchanged) refl),
)
