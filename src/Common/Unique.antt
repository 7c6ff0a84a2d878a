-- ===== src/Common/Unique.antt =====
-- The only element of a list that passes a test.
use mathlib.Core.Path.{◌≡◌, refl, ap, ◌∙◌}
use mathlib.Core.Logic.{◌↔◌, inl, inr}
use mathlib.Core.Bool.{Bool, true, false}
use mathlib.Core.List.{List, [], ◌∷◌, ◌++◌}
use go_wsman.Common.Tests.{Bool-cases}
use go_wsman.Common.Lists.{filter, All}

module _ {ℓ} {A : Type ℓ} (p : A → Bool) where
  -- `x` passes the test, and no element before it or behind it does.
  pub record Only (x : A) (xs : List A) : Type ℓ where
    pub before : List A
    pub after : List A
    pub split_at : xs ≡ before ++ x ∷ after
    pub passes : p x ≡ true
    pub none_before : All (λ y. p y ≡ false) before
    pub none_after : All (λ y. p y ≡ false) after

  pub filter_none : (xs : List A) → All (λ y. p y ≡ false) xs → filter p xs ≡ []
  filter_none [] h = refl
  filter_none (x ∷ xs) (hx, h) = rw hx (filter_none xs h)

  pub none_filtered : (xs : List A) → filter p xs ≡ [] → All (λ y. p y ≡ false) xs
  none_filtered [] h = tt
  none_filtered (x ∷ xs) h = elim (Bool-cases (p x)) [
    | inl e ↦ (let h' = rw e at h in cc)
    | inr e ↦ (e, none_filtered xs (rw e at h))
  ]

  filter_append : (xs ys : List A) → filter p (xs ++ ys) ≡ filter p xs ++ filter p ys
  filter_append [] ys = refl
  filter_append (x ∷ xs) ys = elim (Bool-cases (p x)) [
    | inl e ↦ rw e (ap (λ l. x ∷ l) (filter_append xs ys))
    | inr e ↦ rw e (filter_append xs ys)
  ]

  filter_single : (x : A) (xs : List A) → Only x xs → filter p xs ≡ x ∷ []
  filter_single x xs o =
      ap (filter p) o.split_at
      ∙ filter_append o.before (x ∷ o.after)
      ∙ (rw (filter_none o.before o.none_before)
          (rw o.passes (ap (λ l. x ∷ l) (filter_none o.after o.none_after))))

  found_first : (x y : A) (xs : List A) → p y ≡ true → y ∷ filter p xs ≡ x ∷ [] → Only x (y ∷ xs)
  found_first x y xs e h = record {
    before = [];
    after = xs;
    split_at = ap (λ z. z ∷ xs) (cc);
    passes = ap p (cc) ∙ e;
    none_before = tt;
    none_after = none_filtered xs (cc);
  }

  behind : (x y : A) (xs : List A) → p y ≡ false → Only x xs → Only x (y ∷ xs)
  behind x y xs e o = record {
    before = y ∷ o.before;
    after = o.after;
    split_at = ap (λ l. y ∷ l) o.split_at;
    passes = o.passes;
    none_before = (e, o.none_before);
    none_after = o.none_after;
  }

  single_filtered : (x : A) (xs : List A) → filter p xs ≡ x ∷ [] → Only x xs
  single_filtered x [] h = cc
  single_filtered x (y ∷ xs) h = elim (Bool-cases (p y)) [
    | inl e ↦ found_first x y xs e (rw e at h)
    | inr e ↦ behind x y xs e (single_filtered x xs (rw e at h))
  ]

  -- A filter that leaves one element has found the only one.
  pub filter-Only : (x : A) (xs : List A) → (filter p xs ≡ x ∷ []) ↔ Only x xs
  filter-Only x xs = (single_filtered x xs, filter_single x xs)
