-- ===== src/Wsman/Recorder/Files.antt =====
-- wsman/record.go: the files of a recording, their header, and the inspection of what was written.
-- `sha256` stands for the digest in lower-case hexadecimal digits, `well_formed` for the decoder of
-- encoding/xml on a whole text, `file_name` for filepath.Join and the number of the file.
use go_wsman.Common.{
  ◌-◌, ℕ, zero, suc, ◌==◌, leb, Bool, true, false, not, ◌&&◌, ◌||◌, Option, none, some, List, [],
  ◌∷◌, ◌++◌, map, Bytes, codes, str_lt, is_empty, is_digit, member, filter, has_prefix,
  behind_first, expect, take, drop, length, if◌then◌else◌, Result, ok, err,
}
use go_wsman.Wsman.Recorder.Patterns.{Span, literal_at, class_at, find_texts, find_spans}
use go_wsman.Wsman.Recorder.Scrub.{xml_escape_for_scrub}

-- `recordedByMarker`
abbrev pub recorded_by_marker : Bytes
recorded_by_marker = codes "recorded-by: go-wsman/wsman.WithRecorder"

pub data RecordError : Type 0 where
  not_well_formed : RecordError
  class_names_lost : List Bytes → RecordError
  not_written : Bytes → RecordError
  not_read : Bytes → RecordError
  no_marker : RecordError
  no_hash : RecordError
  hash_differs : RecordError
  leaked : List Bytes → RecordError

abbrev found : Option Bytes → Bool
found none = false
found (some rest) = true

-- `strings.Contains` of a text that is not empty
unfoldable pub contains : Bytes → Bytes → Bool
contains s p = found (behind_first p s)

-- `uniqueStrings`, behind those that were seen
unfoldable pub unique_behind : List Bytes → List Bytes → List Bytes
unique_behind seen [] = []
unique_behind seen (v ∷ vs) =
    let again = unique_behind seen vs in
    let new = unique_behind (v ∷ seen) vs in if member v seen then again else v ∷ new

unfoldable pub unique_strings : List Bytes → List Bytes
unfolding unique_behind
unique_strings vs = unique_behind [] vs

unfoldable pub insert_string : Bytes → List Bytes → List Bytes
insert_string s [] = s ∷ []
insert_string s (t ∷ ts) =
    let rest = insert_string s ts in if str_lt t s then t ∷ rest else s ∷ t ∷ ts

-- `sort.Strings`
unfoldable pub sort_strings : List Bytes → List Bytes
unfolding insert_string
sort_strings [] = []
sort_strings (s ∷ ss) = insert_string s (sort_strings ss)

-- the class names of a text, each once
abbrev pub class_tokens : Bytes → List Bytes
class_tokens s = unique_strings (find_texts class_at 0 none s)

-- `lost` of `classTokensUnchanged`
unfoldable pub lost_class_tokens : Bytes → Bytes → List Bytes
unfolding sort_strings unique_strings
lost_class_tokens before after =
    sort_strings (filter (λ t. not (member t (class_tokens after))) (class_tokens before))

-- `classTokensUnchanged`
unfoldable pub class_tokens_unchanged : Bytes → Bytes → Result RecordError (Unit {0})
unfolding lost_class_tokens
class_tokens_unchanged before after = elim (lost_class_tokens before after) [
  | [] ↦ ok tt
  | ◌∷◌ t ts ↦ err (class_names_lost (t ∷ ts))
]

-- `recordedHeaderPattern`, the match taken away
unfoldable pub strip_recorded_header : Bytes → Bytes
strip_recorded_header s = elim (expect (codes "<!--") s) [
  | none ↦ s
  | some inside ↦ elim (behind_first (codes "-->\n") inside) [ none ↦ s | some body ↦ body ]
]

abbrev pub is_lower_hex : ℕ → Bool
is_lower_hex c = is_digit c || (leb b'a' c && leb c b'f')

-- `[0-9a-f]{n}`
unfoldable pub take_lower_hex : ℕ → Bytes → Option Bytes
take_lower_hex zero s = some []
take_lower_hex (suc n) [] = none
take_lower_hex (suc n) (c ∷ s) =
    if is_lower_hex c
    then elim (take_lower_hex n s) [ none ↦ none | some ds ↦ some (c ∷ ds) ]
    else none

-- `\s*`
unfoldable pub skip_spaces : Bytes → Bytes
skip_spaces [] = []
skip_spaces (c ∷ s) =
    let rest = skip_spaces s in
    if c == b' ' || c == b'\t' || c == b'\n' || c == b'\r' || c == 12 then rest else c ∷ s

-- `recordedHashPattern` at the front of a text
unfoldable pub hash_at : Bytes → Option Bytes
unfolding skip_spaces take_lower_hex
hash_at s = elim (expect (codes "sha256:") s) [
  | none ↦ none
  | some rest ↦ take_lower_hex 64 (skip_spaces rest)
]

-- `recordedHashPattern`, the group of the first match
unfoldable pub recorded_hash : Bytes → Option Bytes
unfolding hash_at
recorded_hash [] = none
recorded_hash (c ∷ s) =
    let rest = recorded_hash s in elim (hash_at (c ∷ s)) [ some h ↦ some h | none ↦ rest ]

-- `withinAnySpan`
unfoldable pub within_any_span : List Span → Span → Bool
within_any_span [] loc = false
within_any_span (sp ∷ spans) loc =
    (leb sp.from loc.from && leb loc.upto sp.upto) || within_any_span spans loc

-- the loop of `literalLeaked`
unfoldable pub any_outside : List Span → List Span → Bool
unfolding within_any_span
any_outside spans [] = false
any_outside spans (loc ∷ locs) = not (within_any_span spans loc) || any_outside spans locs

-- `literalLeaked`
unfoldable pub literal_leaked : Bytes → Bytes → List Span → Bool
unfolding any_outside
literal_leaked body v class_spans =
    if is_empty v then false else any_outside class_spans (find_spans (literal_at v) 0 0 none body)

-- the twelve digits of a match of `macElementPattern`
unfoldable pub address_digits : Bytes → Bytes
address_digits m = take 12 (drop (length m - 14) m)

abbrev to_upper : ℕ → ℕ
to_upper c = if leb b'a' c && leb c b'z' then c - 32 else c

-- `strings.ToUpper` of the digits, and the test of their first six
unfoldable pub is_placeholder_mac : Bytes → Bool
is_placeholder_mac digits = has_prefix (map to_upper digits) (codes "00155D")

-- the loop over the literals in `verifyRecorded`
unfoldable pub leaked_literals : Bytes → List Span → List Bytes → List Bytes
unfolding literal_leaked xml_escape_for_scrub
leaked_literals body spans [] = []
leaked_literals body spans (lit ∷ lits) =
    (if literal_leaked body lit spans then lit ∷ [] else [])
    ++ (if literal_leaked body (xml_escape_for_scrub lit) spans then lit ∷ [] else [])
    ++ leaked_literals body spans lits
