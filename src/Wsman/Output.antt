-- ===== src/Wsman/Output.antt =====
-- wsman/invoke.go: the endpoint references among the outputs of a method. `decode` stands for
-- `xml.Decoder.DecodeElement` into the struct that the code gives it: the text of ResourceURI and
-- the selectors with their names, of the element whose tokens stand in front, or an error.
pub mod References
use go_wsman.Common.{
  ℕ, ◌+◌, ◌-◌, ◌≡◌, Bool, true, false, ◌==◌, ◌&&◌, Option, none, some, List, [], ◌∷◌, Bytes, str_eq,
  is_empty, trim_space, if◌then◌else◌,
}
use go_wsman.Common.Xml.{Attr, Token, start, chars, stop, other}

-- what `DecodeElement` fills
pub record RawReference : Type 0 where
  pub resource_uri : Bytes
  pub selectors : List (Bytes × Bytes)

-- `EndpointReference`; a map is an association list without double keys
pub record EndpointReference : Type 0 where
  pub resource_uri : Bytes
  pub selectors : List (Bytes × Bytes)

-- `m[k] = v`
unfoldable pub assign : Bytes → Bytes → List (Bytes × Bytes) → List (Bytes × Bytes)
assign k v [] = (k, v) ∷ []
assign k v ((j, w) ∷ m) =
    let rest = assign k v m in if str_eq j k then (k, v) ∷ m else (j, w) ∷ rest

-- `m[k]`, the empty string for a missing key
unfoldable pub value_at : Bytes → List (Bytes × Bytes) → Bytes
value_at k [] = []
value_at k ((j, w) ∷ m) = let rest = value_at k m in if str_eq j k then w else rest

-- `for _, s := range raw.Selectors`
unfoldable pub assign_all : List (Bytes × Bytes) → List (Bytes × Bytes) → List (Bytes × Bytes)
unfolding assign
assign_all [] m = m
assign_all ((k, v) ∷ raw) m = assign_all raw (assign k (trim_space v) m)

unfoldable pub reference_of : Option RawReference → Option EndpointReference
unfolding assign_all
reference_of none = none
reference_of (some raw) =
    if is_empty raw.resource_uri
    then none
    else some (record {
      resource_uri = trim_space raw.resource_uri;
      selectors = assign_all raw.selectors [];
    })

module _ (decode : List Token → Option RawReference) where
  -- the loop of `PropertyEPR`
  unfoldable pub find_reference : Bytes → ℕ → List Token → Option EndpointReference
  unfolding reference_of
  find_reference name depth [] = none
  find_reference name depth (start n attrs ∷ ts) =
      let rest = find_reference name (depth + 1) ts in
      if (depth + 1 == 2) && str_eq n name then reference_of (decode (start n attrs ∷ ts)) else rest
  find_reference name depth (stop n ∷ ts) = find_reference name (depth - 1) ts
  find_reference name depth (chars s ∷ ts) = find_reference name depth ts
  find_reference name depth (other ∷ ts) = find_reference name depth ts

  -- `InvokeResponse.PropertyEPR`; an empty body has no tokens
  unfoldable pub property_epr : Bytes → List Token → Option EndpointReference
  unfolding find_reference
  property_epr name body = find_reference name 0 body
