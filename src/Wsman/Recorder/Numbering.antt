-- ===== src/Wsman/Recorder/Numbering.antt =====
-- wsman/record.go: the numbers that the placeholders of one prefix have.
use go_wsman.Common.{
  ℕ, suc, ◌≤◌, ◌≡◌, ◌≢◌, refl, sym, ap, ◌∙◌, ◌↔◌, true, false, Option, none, some, List, [], ◌∷◌,
  Bytes, str_eq, str_eq_iff, if◌then◌else◌, arith, Bool-cases, inl, inr,
}
use go_wsman.Wsman.Recorder.{
  Prefix, scrubbed, mac, ip, guid, same_prefix, numbered, Entry, Anonymizer, is_key,
  find_placeholder, count_up, new_anonymizer, Url,
}

pub same_prefix_iff : (p q : Prefix) → (same_prefix p q ≡ true) ↔ (p ≡ q)
unfolding same_prefix
same_prefix_iff scrubbed scrubbed = ((λ e. refl), (λ e. refl))
same_prefix_iff mac mac = ((λ e. refl), (λ e. refl))
same_prefix_iff ip ip = ((λ e. refl), (λ e. refl))
same_prefix_iff guid guid = ((λ e. refl), (λ e. refl))
same_prefix_iff _ _ = ((λ e. cc), (λ e. cc))

-- the entries of a prefix
unfoldable pub count_of : Prefix → List Entry → ℕ
count_of p [] = 0
count_of p (e ∷ es) = let n = count_of p es in if same_prefix e.prefix p then suc n else n

-- Every entry has the placeholder whose number counts the entries of its prefix up to it, and no
-- two entries have one key.
unfoldable pub Assigned : List Entry → Type 0
Assigned [] = Unit {0}
Assigned (e ∷ es) =
    (e.placeholder ≡ numbered e.prefix (suc (count_of e.prefix es)))
    × ((find_placeholder e.prefix e.name es ≡ none) × Assigned es)

pub record Consistent (a : Anonymizer) : Type 0 where
  pub counted : (p : Prefix) → a.counters p ≡ count_of p a.replaced
  pub entries : Assigned a.replaced

pub new_anonymizer-Consistent :
    (url : Option Url) (literals : List Bytes) → Consistent (new_anonymizer url literals)
unfolding new_anonymizer count_of Assigned
new_anonymizer-Consistent url literals = record { counted = λ p. refl; entries = tt }

pub count_up-count_of :
    (p q : Prefix) (es : List Entry) (counters : Prefix → ℕ) (name v : Bytes)
    → counters q ≡ count_of q es
    → count_up p counters q ≡ count_of q (record { prefix = p; name = name; placeholder = v } ∷ es)
unfolding count_up count_of
count_up-count_of p q es counters name v e = rw e refl

newest_number :
    (p : Prefix) (name : Bytes) (x : Entry) (es : List Entry) {v : Bytes}
    → Assigned (x ∷ es)
    → same_prefix x.prefix p ≡ true
    → str_eq x.name name ≡ true
    → find_placeholder p name (x ∷ es) ≡ some v
    → v ≡ numbered p (suc (count_of p es))
unfolding Assigned find_placeholder is_key
newest_number p name x es {v} (here, (fresh, rest)) same this e =
    let e' : some x.placeholder ≡ some v = rw this at (rw same at e) in
    let out : v ≡ x.placeholder = cc in
    out ∙ here ∙ ap (λ q. numbered q (suc (count_of q es))) ((same_prefix_iff x.prefix p).0 same)

number_of :
    (p : Prefix) (name : Bytes) (es : List Entry) {v : Bytes}
    → Assigned es
    → find_placeholder p name es ≡ some v
    → (n : ℕ) × (1 ≤ n) × (n ≤ count_of p es) × (v ≡ numbered p n)
unfolding Assigned find_placeholder count_of is_key
number_of p name [] ok e = cc
number_of p name (x ∷ es) {v} (here, (fresh, rest)) e = elim (Bool-cases (same_prefix x.prefix p)) [
  | inr differs ↦
      (let (n, low, high, named) = number_of p name es rest (rw differs at e) in
        (n, low, rw differs high, named))
  | inl same ↦ elim (Bool-cases (str_eq x.name name)) [
    | inl this ↦ (
      suc (count_of p es),
      omega arith,
      rw same (omega arith),
      newest_number p name x es (here, (fresh, rest)) same this e,
    )
    | inr other ↦
        (let (n, low, high, named) = number_of p name es rest (rw other at (rw same at e)) in
          (n, low, rw same (omega (arith, high)), named))
  ]
]

-- The placeholders have different numbers.
pub record Apart (p : Prefix) (es : List Entry) (v w : Bytes) : Type 0 where
  pub left : ℕ
  pub right : ℕ
  pub left_low : 1 ≤ left
  pub left_high : left ≤ count_of p es
  pub right_low : 1 ≤ right
  pub right_high : right ≤ count_of p es
  pub differ : left ≢ right
  pub left_is : v ≡ numbered p left
  pub right_is : w ≡ numbered p right

Apart-sym : (p : Prefix) (es : List Entry) (v w : Bytes) → Apart p es v w → Apart p es w v
Apart-sym p es v w a = record {
  left = a.right;
  right = a.left;
  left_low = a.right_low;
  left_high = a.right_high;
  right_low = a.left_low;
  right_high = a.left_high;
  differ = λ e. a.differ (sym e);
  left_is = a.right_is;
  right_is = a.left_is;
}

count_of-grows : (p : Prefix) (x : Entry) (es : List Entry) → count_of p es ≤ count_of p (x ∷ es)
unfolding count_of
count_of-grows p x es = ground arith

Apart-grows :
    (p : Prefix) (x : Entry) (es : List Entry) (v w : Bytes) → Apart p es v w → Apart p (x ∷ es) v w
Apart-grows p x es v w a = record {
  left = a.left;
  right = a.right;
  left_low = a.left_low;
  left_high = omega (arith, a.left_high, count_of-grows p x es);
  right_low = a.right_low;
  right_high = omega (arith, a.right_high, count_of-grows p x es);
  differ = a.differ;
  left_is = a.left_is;
  right_is = a.right_is;
}

newest-Apart :
    (p : Prefix) (s t : Bytes) (x : Entry) (es : List Entry) {v w : Bytes}
    → Assigned (x ∷ es)
    → same_prefix x.prefix p ≡ true
    → str_eq x.name s ≡ true
    → str_eq x.name t ≡ false
    → find_placeholder p s (x ∷ es) ≡ some v
    → find_placeholder p t (x ∷ es) ≡ some w
    → Apart p (x ∷ es) v w
unfolding Assigned find_placeholder is_key count_of
newest-Apart p s t x es {v} {w} (here, (fresh, rest)) same this other e f =
    let (m, low, high, named) = number_of p t es rest (rw other at (rw same at f)) in
    record {
      left = suc (count_of p es);
      right = m;
      left_low = omega arith;
      left_high = rw same (omega arith);
      right_low = low;
      right_high = rw same (omega (arith, high));
      differ = λ k. omega (arith, high, k);
      left_is = newest_number p s x es (here, (fresh, rest)) same this e;
      right_is = named;
    }

-- Two names of one prefix have placeholders with different numbers.
pub find_placeholder-Apart :
    (p : Prefix) (s t : Bytes) (es : List Entry) {v w : Bytes}
    → Assigned es
    → find_placeholder p s es ≡ some v
    → find_placeholder p t es ≡ some w
    → s ≢ t
    → Apart p es v w
unfolding Assigned find_placeholder is_key
find_placeholder-Apart p s t [] ok e f d = cc
find_placeholder-Apart p s t (x ∷ es) {v} {w} (here, (fresh, rest)) e f d =
    elim (Bool-cases (same_prefix x.prefix p)) [
      | inr differs ↦
          Apart-grows p x es v w
            (find_placeholder-Apart p s t es rest (rw differs at e) (rw differs at f) d)
      | inl same ↦ elim (Bool-cases (str_eq x.name s)) [
        | inl this ↦ elim (Bool-cases (str_eq x.name t)) [
          | inl that ↦
              absurd (d (sym ((str_eq_iff x.name s).0 this) ∙ (str_eq_iff x.name t).0 that))
          | inr other ↦ newest-Apart p s t x es (here, (fresh, rest)) same this other e f
        ]
        | inr other ↦ elim (Bool-cases (str_eq x.name t)) [
          | inl that ↦
              Apart-sym p (x ∷ es) w v
                (newest-Apart p t s x es (here, (fresh, rest)) same that other f e)
          | inr neither ↦ Apart-grows p x es v w (
              find_placeholder-Apart p s t es rest (rw other at (rw same at e))
                (rw neither at (rw same at f)) d)
        ]
      ]
    ]
