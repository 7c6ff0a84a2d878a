-- ===== src/Common/Resolve.antt =====
-- Lookups in the maps that a list of values by name makes, before and after the placeholders of
-- NULL values are resolved.
use mathlib.Core.Path.{◌≡◌, refl, sym, ◌∙◌, subst}
use mathlib.Core.Logic.{◌≢◌, inl, inr}
use mathlib.Core.Bool.{false}
use mathlib.Core.List.{List, [], ◌∷◌, ◌++◌, map, append_assoc, append-nil}
use native.Mathlib.Omega.{arith}
use go_wsman.Common.Tests.{if◌then◌else◌, Bool-cases}
use go_wsman.Common.Lists.{All}
use go_wsman.Common.Text.{Bytes, str_eq, str_eq_iff}
use go_wsman.Common.Props.{
  Props, get, append_value, get-append_value, all_null, fill_null, resolve_nulls, Absent, IsMap,
}

-- the map that a list of entries makes
unfoldable pub collect : Props → List (Bytes × Bytes) → Props
collect m [] = m
collect m ((k, v) ∷ es) = collect (append_value k v m) es

pub collect-append :
    (es fs : List (Bytes × Bytes)) (m : Props) → collect m (es ++ fs) ≡ collect (collect m es) fs
unfolding collect
collect-append [] fs m = refl
collect-append ((k, v) ∷ es) fs m = collect-append es fs (append_value k v m)

-- the values that the entries of one name have, in order
abbrev pub named : Bytes → List (Bytes × Bytes) → List Bytes
named k [] = []
named k ((j, v) ∷ es) = let rest = named k es in if str_eq j k then v ∷ rest else rest

pub get-collect :
    (k : Bytes) (es : List (Bytes × Bytes)) (m : Props)
    → get k (collect m es) ≡ get k m ++ named k es
unfolding collect
get-collect k [] m = sym (append-nil (get k m))
get-collect k ((j, v) ∷ es) m =
    get-collect k es (append_value j v m)
    ∙ rw get-append_value
        (elim (Bool-cases (str_eq j k)) [ inl e ↦ rw e (rw append_assoc refl) | inr e ↦ rw e refl ])

append_value-Absent :
    (k j v : Bytes) (m : Props) → str_eq j k ≡ false → Absent k m → Absent k (append_value j v m)
unfolding append_value
append_value-Absent k j v [] ne h = ground arith
append_value-Absent k j v ((i, vs) ∷ m) ne h = elim (Bool-cases (str_eq i j)) [
  | inl e ↦ rw e h
  | inr e ↦ rw e (h.0, append_value-Absent k j v m ne h.1)
]

str_eq_symm : (a b : Bytes) → str_eq a b ≡ false → str_eq b a ≡ false
str_eq_symm a b h = ground (arith, str_eq_iff a b, str_eq_iff b a)

append_value-IsMap : (k v : Bytes) (m : Props) → IsMap m → IsMap (append_value k v m)
unfolding append_value
append_value-IsMap k v [] h = ground arith
append_value-IsMap k v ((j, vs) ∷ m) h = elim (Bool-cases (str_eq j k)) [
  | inl e ↦ rw e h
  | inr e ↦ rw e (append_value-Absent j k v m (str_eq_symm j k e) h.0, append_value-IsMap k v m h.1)
]

pub collect-IsMap : (es : List (Bytes × Bytes)) (m : Props) → IsMap m → IsMap (collect m es)
unfolding collect
collect-IsMap [] m h = h
collect-IsMap ((k, v) ∷ es) m h = collect-IsMap es (append_value k v m) (append_value-IsMap k v m h)

module _ (null : Bytes) where
  -- the values that a program sees for a key: none if all are NULL, and else the empty string in
  -- the place of each NULL
  abbrev pub resolved : List Bytes → List Bytes
  resolved vs = if all_null null vs then [] else map (fill_null null) vs

  get_of_Absent : (k : Bytes) (m : Props) → Absent k m → get k (resolve_nulls null m) ≡ []
  unfolding get resolve_nulls
  get_of_Absent k [] h = refl
  get_of_Absent k ((j, vs) ∷ m) h = elim (Bool-cases (all_null null vs)) [
    | inl e ↦ rw e (get_of_Absent k m h.1)
    | inr e ↦ rw e (rw h.0 (get_of_Absent k m h.1))
  ]

  pub get-resolve_nulls :
      (k : Bytes) (m : Props) → IsMap m → get k (resolve_nulls null m) ≡ resolved (get k m)
  unfolding get resolve_nulls
  get-resolve_nulls k [] h = refl
  get-resolve_nulls k ((j, vs) ∷ m) h =
      let ih = get-resolve_nulls k m h.1 in
      elim (Bool-cases (all_null null vs)) [
        | inl e ↦ elim (Bool-cases (str_eq j k)) [
          | inl same ↦
              let absent : Absent k m = subst (λ i. Absent i m) ((str_eq_iff j k).0 same) h.0 in
              rw e (rw same (rw e (get_of_Absent k m absent)))
          | inr ne ↦ rw e (rw ne ih)
        ]
        | inr e ↦ elim (Bool-cases (str_eq j k)) [
          | inl same ↦ rw e (rw same (rw e refl))
          | inr ne ↦ rw e (rw ne ih)
        ]
      ]

  -- A value that is not NULL, and a key that has one
  abbrev pub Clean : Bytes × List Bytes → Type 0
  Clean (k, vs) = (vs ≢ []) × All (λ v. v ≢ null) vs

  fill_null-ne : null ≢ [] → (vs : List Bytes) → All (λ v. v ≢ null) (map (fill_null null) vs)
  fill_null-ne h [] = tt
  fill_null-ne h (v ∷ vs) = (ground (arith, str_eq_iff v null), fill_null-ne h vs)

  -- No placeholder is left, and no key without values.
  pub resolve_nulls-Clean : null ≢ [] → (m : Props) → All Clean (resolve_nulls null m)
  unfolding resolve_nulls
  resolve_nulls-Clean h [] = tt
  resolve_nulls-Clean h ((k, []) ∷ m) = resolve_nulls-Clean h m
  resolve_nulls-Clean h ((k, v ∷ vs) ∷ m) = elim (Bool-cases (all_null null (v ∷ vs))) [
    | inl e ↦ rw e (resolve_nulls-Clean h m)
    | inr e ↦ rw e (((λ z. cc), fill_null-ne h (v ∷ vs)), resolve_nulls-Clean h m)
  ]
