-- ===== src/Wsman/Instances/Extract.antt =====
-- wsman/get.go: `extractProperties` fills the map with what the element tree describes.
use go_wsman.Common.{
  ℕ, ◌+◌, ◌≤◌, ◌≡◌, refl, ◌∙◌, sym, ap, Bool, true, false, List, [], ◌∷◌, ◌++◌, append_assoc, Bytes,
  is_empty, if◌then◌else◌, ok, arith,
}
use go_wsman.Common.Props.{Props}
use go_wsman.Common.Xml.{
  Attr, Token, start, stop, Node, Nodes, element, text, comment, nil, cons, node_tokens,
  nodes_tokens, stream_of,
}
use go_wsman.Wsman.Instances.{
  is_xsi_nil, resolve_null_placeholders, add_property, PropertyReader, property_step,
  read_properties, extract_properties,
}
use go_wsman.Common.Resolve.{collect, collect-append}
use go_wsman.Wsman.Instances.Trees.{
  entries, entry, value_of, note, note-append, note-value_of, node_texts, nodes_texts,
}

-- the entries of the children of every top-level element
unfoldable pub all_entries : Nodes → List (Bytes × Bytes)
all_entries nil = []
all_entries (cons (element name attrs body) xs) = entries body ++ all_entries xs
all_entries (cons (text s) xs) = all_entries xs
all_entries (cons comment xs) = all_entries xs

abbrev reader : ℕ → Props → Bytes → Bytes → Bool → PropertyReader
reader d p name last n = record { depth = d; props = p; element = name; last = last; is_nil = n }

module _ (p : Props) (name : Bytes) (n : Bool) where
  open_inner :
      (d : ℕ) (last m : Bytes) (attrs : List Attr)
      → 2 ≤ d
      → property_step (reader d p name last n) (start m attrs) ≡ reader (d + 1) p name last n
  unfolding property_step
  open_inner d last m attrs h = ground arith

  close_inner :
      (d : ℕ) (last m : Bytes)
      → 2 ≤ d
      → property_step (reader (d + 1) p name last n) (stop m) ≡ reader d p name last n
  unfolding property_step
  close_inner d last m h = ground arith

  mutual
    unfolding node_tokens node_texts read_properties

    read-node :
        (x : Node) (d : ℕ) (last : Bytes) (rest : List Token)
        → 2 ≤ d
        → read_properties (reader d p name last n) (node_tokens x ++ rest)
          ≡ read_properties (reader d p name (note name last (node_texts x)) n) rest
    read-node (element m attrs body) d last rest h = rw append_assoc (
        ap (λ r. read_properties r (nodes_tokens body ++ stop m ∷ rest))
          (open_inner d last m attrs h)
        ∙ read-nodes body (d + 1) last (stop m ∷ rest) (omega arith)
        ∙ ap (λ r. read_properties r rest) (close_inner d _ m h))
    read-node (text s) d last rest h = ground arith
    read-node comment d last rest h = refl

    read-nodes :
        (xs : Nodes) (d : ℕ) (last : Bytes) (rest : List Token)
        → 2 ≤ d
        → read_properties (reader d p name last n) (nodes_tokens xs ++ rest)
          ≡ read_properties (reader d p name (note name last (nodes_texts xs)) n) rest
    read-nodes nil d last rest h = refl
    read-nodes (cons x xs) d last rest h = rw append_assoc (
        read-node x d last (nodes_tokens xs ++ rest) h
        ∙ read-nodes xs d (note name last (node_texts x)) rest h
        ∙ ap (λ l. read_properties (reader d p name l n) rest)
            (sym (note-append name last (node_texts x) (nodes_texts xs))))

-- the flag that is left behind a property element; it is set again before it is read
abbrev left_flag : Bytes → List Attr → Bool
left_flag name attrs = if is_empty name then is_xsi_nil attrs else false

module _ (p : Props) where
  close_property :
      (name value : Bytes) (nil? : Bool)
      → property_step (reader 2 p name (if is_empty name then [] else value) nil?) (stop name)
        ≡ reader 1 (collect p (entry name value nil?)) [] [] (if is_empty name then nil? else false)
  unfolding property_step add_property collect entry
  close_property [] value nil? = refl
  close_property (c ∷ name) [] true = refl
  close_property (c ∷ name) [] false = refl
  close_property (c ∷ name) (v ∷ value) nil? = refl

  -- the tokens of one property element, from the start element to the end element
  read_property :
      (name : Bytes) (attrs : List Attr) (body : Nodes) (last : Bytes) (n : Bool)
      (rest : List Token)
      → read_properties (reader 1 p [] last n) (node_tokens (element name attrs body) ++ rest)
        ≡ read_properties
            (reader 1
              (collect p (entry name (value_of body) (is_xsi_nil attrs)))
              []
              []
              (left_flag name attrs))
            rest
  unfolding node_tokens read_properties
  read_property name attrs body last n rest = rw append_assoc (
      read-nodes p name (is_xsi_nil attrs) body 2 [] (stop name ∷ rest) (omega arith)
      ∙ ap (λ l. read_properties (reader 2 p name l (is_xsi_nil attrs)) (stop name ∷ rest))
          (note-value_of name body)
      ∙ ap (λ r. read_properties r rest) (close_property name (value_of body) (is_xsi_nil attrs)))

-- the tokens of the children of a top-level element, up to its end element
read_children :
    (xs : Nodes) (p : Props) (last name : Bytes) (n : Bool) (rest : List Token) (k : Props)
    → ((l : Bytes) (f : Bool)
        → (read_properties (reader 0 (collect p (entries xs)) [] l f) rest).props ≡ k)
    → (read_properties (reader 1 p [] last n) (nodes_tokens xs ++ stop name ∷ rest)).props ≡ k
unfolding nodes_tokens entries read_properties collect
read_children nil p last name n rest k h = h last n
read_children (cons (element m attrs body) xs) p last name n rest k h = rw append_assoc (
    ap (λ (r : PropertyReader). r.props)
      (read_property p m attrs body last n (nodes_tokens xs ++ stop name ∷ rest))
    ∙ read_children xs (collect p (entry m (value_of body) (is_xsi_nil attrs))) [] name
        (left_flag m attrs) rest k (rw collect-append at h))
read_children (cons (text s) xs) p last name n rest k h = read_children xs p last name n rest k h
read_children (cons comment xs) p last name n rest k h = read_children xs p last name n rest k h

read_document :
    (doc : Nodes) (p : Props) (last : Bytes) (n : Bool)
    → (read_properties (reader 0 p [] last n) (nodes_tokens doc)).props
      ≡ collect p (all_entries doc)
unfolding nodes_tokens all_entries read_properties node_tokens collect
read_document nil p last n = refl
read_document (cons (element m attrs body) xs) p last n = rw append_assoc (
    read_children body p last m n (nodes_tokens xs) _
      (λ l f. read_document xs (collect p (entries body)) l f)
    ∙ sym (collect-append (entries body) (all_entries xs) p))
read_document (cons (text s) xs) p last n = read_document xs p last n
read_document (cons comment xs) p last n = read_document xs p last n

-- On the tokens of any element tree, `extractProperties` adds the property elements below the
-- top-level elements to the map, in document order, and resolves the placeholders.
pub extract_properties-stream_of :
    (doc : Nodes) (props : Props)
    → extract_properties (stream_of doc) props
      ≡ ok (resolve_null_placeholders (collect props (all_entries doc)))
unfolding extract_properties
extract_properties-stream_of doc props =
    ap (λ p. ok (resolve_null_placeholders p)) (read_document doc props [] false)
