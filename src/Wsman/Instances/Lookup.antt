-- ===== src/Wsman/Instances/Lookup.antt =====
-- wsman/enumerate.go: lookups in the maps that the readers return.
use go_wsman.Common.{◌≡◌, ◌∙◌, [], List, All, Bytes, ap}
use go_wsman.Common.Props.{Props, get}
use go_wsman.Common.Resolve.{
  collect, named, resolved, collect-IsMap, get-collect, get-resolve_nulls, Clean,
  resolve_nulls-Clean,
}
use go_wsman.Wsman.Instances.{null_placeholder, resolve_null_placeholders}

-- In the map that the entries of an instance make, the values of a key are those of its entries
-- in document order: none if all of them are NULL, and else with an empty string for each NULL.
pub get-resolve_null_placeholders :
    (k : Bytes) (es : List (Bytes × Bytes))
    → get k (resolve_null_placeholders (collect [] es)) ≡ resolved null_placeholder (named k es)
unfolding resolve_null_placeholders get collect
get-resolve_null_placeholders k es =
    get-resolve_nulls null_placeholder k (collect [] es) (collect-IsMap es [] tt)
    ∙ ap (resolved null_placeholder) (get-collect k es [])

-- Every key of the map has a value, and no value is the placeholder.
pub resolve_null_placeholders-Clean :
    (m : Props) → All (Clean null_placeholder) (resolve_null_placeholders m)
unfolding resolve_null_placeholders
resolve_null_placeholders-Clean m = resolve_nulls-Clean null_placeholder (λ e. cc) m
