-- ===== src/Wsman/Instances/Trees.antt =====
-- What `parseInstances` and `extractProperties` read, described on element trees.
use go_wsman.Common.{
  ◌≡◌, refl, Bool, List, [], ◌∷◌, ◌++◌, map, Bytes, is_empty, if◌then◌else◌, trim_space, arith, not,
  filter,
}
use go_wsman.Common.Resolve.{collect}
use go_wsman.Common.Props.{Props, last_value}
use go_wsman.Common.Xml.{Node, Nodes, element, text, comment, nil, cons}
use go_wsman.Wsman.Instances.{null_placeholder, is_xsi_nil, resolve_null_placeholders, keep_text}

-- The texts below a node, in document order
unfoldable mutual
  pub node_texts : Node → List Bytes
  node_texts (element name attrs body) = nodes_texts body
  node_texts (text s) = s ∷ []
  node_texts comment = []

  pub nodes_texts : Nodes → List Bytes
  nodes_texts nil = []
  nodes_texts (cons x xs) = node_texts x ++ nodes_texts xs

-- The value of a property element: the last of its texts that is not white space, trimmed
unfoldable pub value_of : Nodes → Bytes
value_of body = last_value (filter (λ v. not (is_empty v)) (map trim_space (nodes_texts body)))

-- What one property element contributes: its value, or the placeholder if it is `xsi:nil`
unfoldable pub entry : Bytes → Bytes → Bool → List (Bytes × Bytes)
entry name value is_nil =
    if is_empty name
    then []
    else if not (is_empty value)
    then (name, value) ∷ []
    else if is_nil
    then (name, null_placeholder) ∷ []
    else []

unfoldable pub entries : Nodes → List (Bytes × Bytes)
entries nil = []
entries (cons (element name attrs body) xs) =
    entry name (value_of body) (is_xsi_nil attrs) ++ entries xs
entries (cons (text s) xs) = entries xs
entries (cons comment xs) = entries xs

-- one instance for each top-level element
unfoldable pub instances_of : Nodes → List Props
instances_of nil = []
instances_of (cons (element name attrs body) xs) =
    resolve_null_placeholders (collect [] (entries body)) ∷ instances_of xs
instances_of (cons (text s) xs) = instances_of xs
instances_of (cons comment xs) = instances_of xs

-- the texts, as the readers see them: those of an element with no name are passed over
abbrev pub note : Bytes → Bytes → List Bytes → Bytes
note name last [] = last
note name last (s ∷ ts) = note name (if is_empty name then last else keep_text last s) ts

pub note-append :
    (name last : Bytes) (a b : List Bytes)
    → note name last (a ++ b) ≡ note name (note name last a) b
note-append name last [] b = refl
note-append name last (s ∷ a) b =
    note-append name (if is_empty name then last else keep_text last s) a b

note_lem :
    (name last : Bytes) (ts : List Bytes)
    → note name last ts ≡ (
        if is_empty name
        then last
        else last_value (last ∷ filter (λ v. not (is_empty v)) (map trim_space ts)))
unfolding last_value keep_text
note_lem name last [] = ground arith
note_lem name last (s ∷ ts) =
    ground (arith, note_lem name (if is_empty name then last else keep_text last s) ts)

last_value_nil : (vs : List Bytes) → last_value ([] ∷ vs) ≡ last_value vs
unfolding last_value
last_value_nil [] = refl
last_value_nil (v ∷ vs) = refl

pub note-value_of :
    (name : Bytes) (body : Nodes)
    → note name [] (nodes_texts body) ≡ (if is_empty name then [] else value_of body)
unfolding value_of
note-value_of name body = rw (← last_value_nil _) (note_lem name [] (nodes_texts body))
