-- ===== src/Wsman/Instances/Parse.antt =====
-- wsman/enumerate.go: `parseInstances` returns the instances that the element tree describes.
use go_wsman.Common.{
  ℕ, ◌+◌, ◌≤◌, ◌≡◌, refl, ◌∙◌, sym, ap, Bool, true, false, List, [], ◌∷◌, ◌++◌, append_assoc,
  append-nil, Bytes, is_empty, if◌then◌else◌, ok, arith, none, some,
}
use go_wsman.Common.Props.{Props}
use go_wsman.Common.Xml.{
  Attr, Token, start, stop, Node, Nodes, element, text, comment, nil, cons, node_tokens,
  nodes_tokens, stream_of,
}
use go_wsman.Wsman.Instances.{
  is_xsi_nil, resolve_null_placeholders, InstanceReader, add_property, instance_step,
  read_instances, parse_instances,
}
use go_wsman.Common.Resolve.{collect, collect-append}
use go_wsman.Wsman.Instances.Trees.{
  entries, entry, instances_of, value_of, note, note-append, note-value_of, node_texts, nodes_texts,
}

abbrev reader : ℕ → List Props → Props → Bytes → Bytes → Bool → InstanceReader
reader d is p name last n = record {
  depth = d;
  instances = is;
  current = some p;
  prop = name;
  last = last;
  is_nil = n;
}

module _ (is : List Props) (p : Props) (name : Bytes) (n : Bool) where
  open_inner :
      (d : ℕ) (last m : Bytes) (attrs : List Attr)
      → 2 ≤ d
      → instance_step (reader d is p name last n) (start m attrs) ≡ reader (d + 1) is p name last n
  unfolding instance_step
  open_inner d last m attrs h = ground arith

  close_inner :
      (d : ℕ) (last m : Bytes)
      → 2 ≤ d
      → instance_step (reader (d + 1) is p name last n) (stop m) ≡ reader d is p name last n
  unfolding instance_step
  close_inner d last m h = ground arith

  mutual
    unfolding node_tokens node_texts read_instances

    read-node :
        (x : Node) (d : ℕ) (last : Bytes) (rest : List Token)
        → 2 ≤ d
        → read_instances (reader d is p name last n) (node_tokens x ++ rest)
          ≡ read_instances (reader d is p name (note name last (node_texts x)) n) rest
    read-node (element m attrs body) d last rest h = rw append_assoc (
        ap (λ r. read_instances r (nodes_tokens body ++ stop m ∷ rest))
          (open_inner d last m attrs h)
        ∙ read-nodes body (d + 1) last (stop m ∷ rest) (omega arith)
        ∙ ap (λ r. read_instances r rest) (close_inner d _ m h))
    read-node (text s) d last rest h = ground arith
    read-node comment d last rest h = refl

    read-nodes :
        (xs : Nodes) (d : ℕ) (last : Bytes) (rest : List Token)
        → 2 ≤ d
        → read_instances (reader d is p name last n) (nodes_tokens xs ++ rest)
          ≡ read_instances (reader d is p name (note name last (nodes_texts xs)) n) rest
    read-nodes nil d last rest h = refl
    read-nodes (cons x xs) d last rest h = rw append_assoc (
        read-node x d last (nodes_tokens xs ++ rest) h
        ∙ read-nodes xs d (note name last (node_texts x)) rest h
        ∙ ap (λ l. read_instances (reader d is p name l n) rest)
            (sym (note-append name last (node_texts x) (nodes_texts xs))))

-- the flag that is left behind a property element; it is set again before it is read
abbrev left_flag : Bytes → List Attr → Bool
left_flag name attrs = if is_empty name then is_xsi_nil attrs else false

module _ (is : List Props) (p : Props) where
  close_property :
      (name value : Bytes) (nil? : Bool)
      → instance_step (reader 2 is p name (if is_empty name then [] else value) nil?) (stop name)
        ≡ reader 1 is
            (collect p (entry name value nil?))
            []
            []
            (if is_empty name then nil? else false)
  unfolding instance_step add_property collect entry
  close_property [] value nil? = refl
  close_property (c ∷ name) [] true = refl
  close_property (c ∷ name) [] false = refl
  close_property (c ∷ name) (v ∷ value) nil? = refl

  -- the tokens of one property element, from the start element to the end element
  read_property :
      (name : Bytes) (attrs : List Attr) (body : Nodes) (last : Bytes) (n : Bool)
      (rest : List Token)
      → read_instances (reader 1 is p [] last n) (node_tokens (element name attrs body) ++ rest)
        ≡ read_instances
            (reader 1 is
              (collect p (entry name (value_of body) (is_xsi_nil attrs)))
              []
              []
              (left_flag name attrs))
            rest
  unfolding node_tokens read_instances
  read_property name attrs body last n rest = rw append_assoc (
      read-nodes is p name (is_xsi_nil attrs) body 2 [] (stop name ∷ rest) (omega arith)
      ∙ ap (λ l. read_instances (reader 2 is p name l (is_xsi_nil attrs)) (stop name ∷ rest))
          (note-value_of name body)
      ∙ ap (λ r. read_instances r rest) (close_property name (value_of body) (is_xsi_nil attrs)))

-- between two instances; what is left of the last property is not read again
abbrev idle : List Props → Bytes → Bool → InstanceReader
idle is last n = record {
  depth = 0;
  instances = is;
  current = none;
  prop = [];
  last = last;
  is_nil = n;
}

-- the tokens of the children of an instance element, up to its end element
read_children :
    (xs : Nodes) (is : List Props) (p : Props) (last name : Bytes) (n : Bool) (rest : List Token)
    (k : List Props)
    → ((l : Bytes) (f : Bool)
        → (read_instances
            (idle (is ++ resolve_null_placeholders (collect p (entries xs)) ∷ []) l f)
            rest).instances
          ≡ k)
    → (read_instances (reader 1 is p [] last n) (nodes_tokens xs ++ stop name ∷ rest)).instances ≡ k
unfolding nodes_tokens entries read_instances collect
read_children nil is p last name n rest k h = h last n
read_children (cons (element m attrs body) xs) is p last name n rest k h = rw append_assoc (
    ap (λ (r : InstanceReader). r.instances)
      (read_property is p m attrs body last n (nodes_tokens xs ++ stop name ∷ rest))
    ∙ read_children xs is (collect p (entry m (value_of body) (is_xsi_nil attrs))) [] name
        (left_flag m attrs) rest k (rw collect-append at h))
read_children (cons (text s) xs) is p last name n rest k h =
    read_children xs is p last name n rest k h
read_children (cons comment xs) is p last name n rest k h =
    read_children xs is p last name n rest k h

read_document :
    (doc : Nodes) (is : List Props) (last : Bytes) (n : Bool)
    → (read_instances (idle is last n) (nodes_tokens doc)).instances ≡ is ++ instances_of doc
unfolding nodes_tokens instances_of read_instances node_tokens
read_document nil is last n = sym (append-nil is)
read_document (cons (element m attrs body) xs) is last n = rw append_assoc (
    read_children body is [] last m n (nodes_tokens xs) _ (λ l f.
      read_document xs (is ++ resolve_null_placeholders (collect [] (entries body)) ∷ []) l f)
    ∙ append_assoc is _ (instances_of xs))
read_document (cons (text s) xs) is last n = read_document xs is last n
read_document (cons comment xs) is last n = read_document xs is last n

-- On the tokens of any element tree, `parseInstances` returns one instance for each top-level
-- element, made of the property elements below it in document order.
pub parse_instances-stream_of :
    (doc : Nodes) → parse_instances (stream_of doc) ≡ ok (instances_of doc)
unfolding parse_instances
parse_instances-stream_of doc = ap ok (read_document doc [] [] false)
