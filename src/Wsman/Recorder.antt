-- ===== src/Wsman/Recorder.antt =====
-- wsman/record.go: the names that the recorder writes in place of those of a real host. `lower`
-- stands for `strings.ToLower`. The maps of the anonymizer are a list of entries, the newest first,
-- and a function; a key, prefix, NUL byte and name, is the pair of the prefix and the name.
pub mod Numbering
pub mod Placeholders
pub mod Patterns
pub mod Scrub
pub mod Stable
pub mod Naming
pub mod Files
pub mod Recording
pub mod Header
pub mod Classes
pub mod Writing
use go_wsman.Common.{
  ℕ, suc, ◌+◌, ◌-◌, ◌/◌, ◌%◌, ltb, leb, ◌==◌, Bool, true, false, ◌&&◌, Option, none, some, List, [],
  ◌∷◌, ◌++◌, Bytes, codes, str_eq, is_empty, length, filter, not, if◌then◌else◌,
}
use go_wsman.Common.Decimal.{format_uint}
use go_wsman.Common.Hex.{padded_hex}

-- the prefixes that `scrub` passes
pub data Prefix : Type 0 where
  scrubbed : Prefix
  mac : Prefix
  ip : Prefix
  guid : Prefix

unfoldable pub same_prefix : Prefix → Prefix → Bool
same_prefix scrubbed scrubbed = true
same_prefix mac mac = true
same_prefix ip ip = true
same_prefix guid guid = true
same_prefix _ _ = false

-- `docIPRanges`
abbrev pub first_range : Bytes
first_range = codes "203.0.113"

abbrev pub second_range : Bytes
second_range = codes "198.51.100"

abbrev pub last_range : Bytes
last_range = codes "192.0.2"

-- `docIPRanges[idx]`, with the last one for an index that is too large
unfoldable pub doc_ip_range : ℕ → Bytes
doc_ip_range idx = if idx == 0 then first_range else if idx == 1 then second_range else last_range

-- the `switch` of `placeholderFor`: the placeholder with the number `n`
unfoldable pub numbered : Prefix → ℕ → Bytes
unfolding doc_ip_range
numbered guid n = codes "00000000-0000-4000-8000-" ++ padded_hex b'a' 12 n
numbered mac n = codes "00155D" ++ padded_hex b'A' 6 n
numbered ip n = doc_ip_range ((n - 1) / 254) ++ b'.' ∷ format_uint ((n - 1) % 254 + 1)
numbered scrubbed n = codes "scrubbed-" ++ format_uint n

pub record Entry : Type 0 where
  pub prefix : Prefix
  pub name : Bytes
  pub placeholder : Bytes

pub record Anonymizer : Type 0 where
  pub hosts : List Bytes
  pub literals : List Bytes
  pub replaced : List Entry
  pub counters : Prefix → ℕ

unfoldable pub is_key : Prefix → Bytes → Entry → Bool
unfolding same_prefix
is_key p name e = same_prefix e.prefix p && str_eq e.name name

-- `a.replaced[key]`
unfoldable pub find_placeholder : Prefix → Bytes → List Entry → Option Bytes
unfolding is_key
find_placeholder p name [] = none
find_placeholder p name (e ∷ es) =
    let rest = find_placeholder p name es in if is_key p name e then some e.placeholder else rest

-- `a.counters[prefix]++`
unfoldable pub count_up : Prefix → (Prefix → ℕ) → Prefix → ℕ
unfolding same_prefix
count_up p counters q = if same_prefix p q then suc (counters q) else counters q

-- `sort.Slice` by falling length; texts of one length keep their order
unfoldable pub insert_longer : Bytes → List Bytes → List Bytes
insert_longer s [] = s ∷ []
insert_longer s (t ∷ ts) =
    let rest = insert_longer s ts in if ltb (length s) (length t) then t ∷ rest else s ∷ t ∷ ts

unfoldable pub longest_first : List Bytes → List Bytes
unfolding insert_longer
longest_first [] = []
longest_first (s ∷ ss) = insert_longer s (longest_first ss)

-- what `url.Parse` makes of an endpoint
pub record Url : Type 0 where
  pub scheme : Bytes
  pub host : Bytes
  pub hostname : Bytes

unfoldable pub hosts_of : Option Url → List Bytes
hosts_of none = []
hosts_of (some u) =
    (if is_empty u.host then [] else u.host ∷ [])
    ++ (if not (is_empty u.hostname) && not (str_eq u.hostname u.host) then u.hostname ∷ [] else [])

-- `newAnonymizer`; the endpoint is given by what `url.Parse` makes of it
unfoldable pub new_anonymizer : Option Url → List Bytes → Anonymizer
unfolding longest_first hosts_of
new_anonymizer url literals = record {
  hosts = longest_first (hosts_of url);
  literals = longest_first (filter (λ lit. not (is_empty lit)) literals);
  replaced = [];
  counters = λ p. 0;
}

-- behind a key that is not in the map
unfoldable pub take_number : Prefix → Bytes → Anonymizer → Bytes × Anonymizer
unfolding numbered count_up
take_number p name a =
    let v = numbered p (suc (a.counters p)) in
    (
      v,
      record {
        hosts = a.hosts;
        literals = a.literals;
        replaced = record { prefix = p; name = name; placeholder = v } ∷ a.replaced;
        counters = count_up p a.counters;
      },
    )

module _ (lower : Bytes → Bytes) where
  -- `placeholderFor`
  unfoldable pub placeholder_for : Prefix → Bytes → Anonymizer → Bytes × Anonymizer
  unfolding find_placeholder take_number
  placeholder_for p s a = elim (find_placeholder p (lower s) a.replaced) [
    | some v ↦ (v, a)
    | none ↦ take_number p (lower s) a
  ]
