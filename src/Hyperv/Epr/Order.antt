-- ===== src/Hyperv/Epr/Order.antt =====
-- hyperv/epr.go: the order in which a Go map is iterated does not show in the texts that are built.
use go_wsman.Common.{
  ◌≡◌, refl, sym, ap, ◌∙◌, true, false, [], ◌∷◌, Bytes, str_lt, str_eq, Bool-cases, inl, inr, arith,
}
use go_wsman.Hyperv.Epr.{
  StringMap, insert_key, sort_keys, wmi_object_path, build_endpoint_reference,
}

-- The same entries in another order: neighbours with different keys change places.
pub data SameMap : StringMap → StringMap → Type 0 where
  same : {m : StringMap} → SameMap m m
  behind : {m n : StringMap} (e : Bytes × Bytes) → SameMap m n → SameMap (e ∷ m) (e ∷ n)
  swapped :
      {m : StringMap} (j v k w : Bytes)
      → str_eq j k ≡ false
      → SameMap ((j, v) ∷ (k, w) ∷ m) ((k, w) ∷ (j, v) ∷ m)
  and_then : {m n o : StringMap} → SameMap m n → SameMap n o → SameMap m o

str_lt_total : (a b : Bytes) → str_eq a b ≡ false → str_lt a b ≡ false → str_lt b a ≡ true
unfolding str_lt str_eq
str_lt_total [] [] n h = cc
str_lt_total [] (y ∷ b) n h = cc
str_lt_total (x ∷ a) [] n h = refl
str_lt_total (x ∷ a) (y ∷ b) n h = ground (arith, str_lt_total a b)

str_lt_asym : (a b : Bytes) → str_lt a b ≡ true → str_lt b a ≡ false
unfolding str_lt
str_lt_asym [] [] h = cc
str_lt_asym [] (y ∷ b) h = refl
str_lt_asym (x ∷ a) [] h = cc
str_lt_asym (x ∷ a) (y ∷ b) h = ground (arith, str_lt_asym a b)

-- what is not above `j` is below what `j` is below
str_lt_below : (i j k : Bytes) → str_lt j i ≡ false → str_lt j k ≡ true → str_lt i k ≡ true
unfolding str_lt
str_lt_below i [] [] a b = cc
str_lt_below i (y ∷ j) [] a b = cc
str_lt_below [] j (z ∷ k) a b = refl
str_lt_below (x ∷ i) [] (z ∷ k) a b = cc
str_lt_below (x ∷ i) (y ∷ j) (z ∷ k) a b = ground (arith, str_lt_below i j k)

insert_over :
    (j w k v : Bytes) (m : StringMap)
    → str_lt j k ≡ true
    → insert_key (k, v) ((j, w) ∷ m) ≡ (j, w) ∷ insert_key (k, v) m
unfolding insert_key
insert_over j w k v m e = rw e refl

insert_here :
    (j w k v : Bytes) (m : StringMap)
    → str_lt j k ≡ false
    → insert_key (k, v) ((j, w) ∷ m) ≡ (k, v) ∷ (j, w) ∷ m
unfolding insert_key
insert_here j w k v m e = rw e refl

insert_nil : (e : Bytes × Bytes) → insert_key e [] ≡ e ∷ []
unfolding insert_key
insert_nil e = refl

-- A smaller key goes in front of a larger one, whichever is inserted first.
insert_ordered :
    (l w k v : Bytes) (m : StringMap)
    → str_lt l k ≡ true
    → insert_key (k, v) (insert_key (l, w) m) ≡ insert_key (l, w) (insert_key (k, v) m)
insert_ordered l w k v [] less = rw (insert_nil (l, w)) (
    rw (insert_nil (k, v)) (
      insert_over l w k v [] less
      ∙ rw (insert_nil (k, v)) (sym (insert_here k v l w [] (str_lt_asym l k less)))))
insert_ordered l w k v ((j, u) ∷ m) less = elim (Bool-cases (str_lt j l)) [
  | inl over ↦
      (let above : str_lt j k ≡ true = str_lt_below j l k (str_lt_asym j l over) less in
        rw (insert_over j u l w m over) (
          rw (insert_over j u k v m above) (
            insert_over j u k v (insert_key (l, w) m) above
            ∙ ap (λ r. (j, u) ∷ r) (insert_ordered l w k v m less)
            ∙ sym (insert_over j u l w (insert_key (k, v) m) over))))
  | inr under ↦ rw (insert_here j u l w m under) (
      insert_over l w k v ((j, u) ∷ m) less ∙ elim (Bool-cases (str_lt j k)) [
        | inl above ↦
            rw (insert_over j u k v m above) (sym (insert_here j u l w (insert_key (k, v) m) under))
        | inr below ↦
            rw (insert_here j u k v m below)
              (sym (insert_here k v l w ((j, u) ∷ m) (str_lt_asym l k less)))
      ])
]

insert_insert :
    (j v k w : Bytes) (m : StringMap)
    → str_eq j k ≡ false
    → insert_key (j, v) (insert_key (k, w) m) ≡ insert_key (k, w) (insert_key (j, v) m)
insert_insert j v k w m n = elim (Bool-cases (str_lt j k)) [
  | inl less ↦ sym (insert_ordered j v k w m less)
  | inr more ↦ insert_ordered k w j v m (str_lt_total j k n more)
]

sort_keys-SameMap : {m n : StringMap} → SameMap m n → sort_keys m ≡ sort_keys n
unfolding sort_keys
sort_keys-SameMap same = refl
sort_keys-SameMap (behind e s) = ap (insert_key e) (sort_keys-SameMap s)
sort_keys-SameMap (swapped {m} j v k w n) = insert_insert j v k w (sort_keys m) n
sort_keys-SameMap (and_then s t) = sort_keys-SameMap s ∙ sort_keys-SameMap t

-- Two association lists that differ only by exchanges of neighbours with different keys, as two
-- iterations over one Go map do, have the same WMI object path and the same endpoint reference, for
-- every resource URI.
pub wmi_object_path-SameMap :
    (uri : Bytes) {m n : StringMap}
    → SameMap m n
    → (wmi_object_path uri m ≡ wmi_object_path uri n)
      × (build_endpoint_reference uri m ≡ build_endpoint_reference uri n)
unfolding wmi_object_path build_endpoint_reference
wmi_object_path-SameMap uri s = (rw (sort_keys-SameMap s) refl, rw (sort_keys-SameMap s) refl)
