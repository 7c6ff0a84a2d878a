-- ===== src/Common/Props.antt =====
-- The `map[string][]string` of a CIM instance as an association list, and what both packages do
-- with the placeholders of NULL values.
use mathlib.Core.Path.{◌≡◌, refl}
use mathlib.Core.Bool.{Bool, false}
use mathlib.Core.List.{List, [], ◌∷◌, ◌++◌, map}
use native.Mathlib.Omega.{arith}
use go_wsman.Common.Tests.{if◌then◌else◌}
use go_wsman.Common.Lists.{all, All}
use go_wsman.Common.Text.{Bytes, str_eq, str_eq_iff}

abbrev pub Props : Type 0
Props = List (Bytes × List Bytes)

-- `props[name]`; a key that is missing has no values
unfoldable pub get : Bytes → Props → List Bytes
get k [] = []
get k ((j, vs) ∷ m) = if str_eq j k then vs else get k m

-- `props[name] = append(props[name], value)`
unfoldable pub append_value : Bytes → Bytes → Props → Props
append_value k v [] = (k, v ∷ []) ∷ []
append_value k v ((j, vs) ∷ m) =
    if str_eq j k then (j, vs ++ v ∷ []) ∷ m else (j, vs) ∷ append_value k v m

-- the last of the values, and the empty string if there is none
unfoldable pub last_value : List Bytes → Bytes
last_value [] = []
last_value (v ∷ []) = v
last_value (v ∷ w ∷ vs) = last_value (w ∷ vs)

-- Two packages have the loop below, each with a placeholder `null` of its own.
module _ (null : Bytes) where
  abbrev pub all_null : List Bytes → Bool
  all_null = all (λ v. str_eq v null)

  abbrev pub fill_null : Bytes → Bytes
  fill_null v = if str_eq v null then [] else v

  -- Every key is treated by itself, so the order of the iteration does not matter.
  unfoldable pub resolve_nulls : Props → Props
  resolve_nulls [] = []
  resolve_nulls ((k, vs) ∷ m) =
      let rest = resolve_nulls m in if all_null vs then rest else (k, map fill_null vs) ∷ rest

-- Lookups after an append
pub get-append_value :
    (k j v : Bytes) (m : Props)
    → get j (append_value k v m) ≡ (if str_eq k j then get j m ++ v ∷ [] else get j m)
unfolding get append_value
get-append_value k j v [] = refl
get-append_value k j v ((i, vs) ∷ m) =
    ground (arith, str_eq_iff k j, str_eq_iff i k, str_eq_iff i j, get-append_value k j v m)

-- No key occurs in a map twice.
abbrev pub Absent : Bytes → Props → Type 0
Absent k = All (λ e. str_eq e.0 k ≡ false)

abbrev pub IsMap : Props → Type 0
IsMap [] = Unit
IsMap ((k, vs) ∷ m) = Absent k m × IsMap m
