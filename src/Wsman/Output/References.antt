-- ===== src/Wsman/Output/References.antt =====
-- wsman/invoke.go: `PropertyEPR` reads the reference that the element tree of the answer has.
use go_wsman.Common.{
  ℕ, ◌+◌, ◌≤◌, ◌≡◌, refl, ◌∙◌, ap, true, false, Option, none, List, [], ◌∷◌, ◌++◌, append_assoc,
  Bytes, str_eq, if◌then◌else◌, arith, Bool-cases, inl, inr,
}
use go_wsman.Common.Xml.{
  Attr, Token, start, stop, Node, Nodes, element, text, comment, nil, cons, node_tokens,
  nodes_tokens,
}
use go_wsman.Wsman.Output.{
  RawReference, EndpointReference, reference_of, find_reference, property_epr,
}

module _ (decode : List Token → Option RawReference) where
  -- `DecodeElement` reads the element in front, and nothing behind its end.
  abbrev pub ReadsOne : Type 0
  ReadsOne =
      (x : Node) (rest : List Token) → decode (node_tokens x ++ rest) ≡ decode (node_tokens x)

  -- the reference in the first of the nodes that is an element of the name
  unfoldable pub first_reference : Bytes → Nodes → Option EndpointReference
  first_reference name nil = none
  first_reference name (cons (element n attrs body) xs) =
      let later = first_reference name xs in
      if str_eq n name then reference_of (decode (node_tokens (element n attrs body))) else later
  first_reference name (cons (text s) xs) = first_reference name xs
  first_reference name (cons comment xs) = first_reference name xs

  module _ (name : Bytes) where
    open_deep :
        (d : ℕ) (n : Bytes) (attrs : List Attr) (ts : List Token)
        → 2 ≤ d
        → find_reference decode name d (start n attrs ∷ ts) ≡ find_reference decode name (d + 1) ts
    unfolding find_reference
    open_deep d n attrs ts h = ground arith

    close_deep :
        (d : ℕ) (n : Bytes) (ts : List Token)
        → find_reference decode name (d + 1) (stop n ∷ ts) ≡ find_reference decode name d ts
    unfolding find_reference
    close_deep d n ts = ap (λ k. find_reference decode name k ts) (omega arith)

    mutual
      unfolding node_tokens nodes_tokens find_reference

      pass_node :
          (x : Node) (d : ℕ) (rest : List Token)
          → 2 ≤ d
          → find_reference decode name d (node_tokens x ++ rest) ≡ find_reference decode name d rest
      pass_node (element n attrs body) d rest h = rw append_assoc (
          open_deep d n attrs (nodes_tokens body ++ stop n ∷ rest) h
          ∙ pass_nodes body (d + 1) (stop n ∷ rest) (omega arith)
          ∙ close_deep d n rest)
      pass_node (text s) d rest h = refl
      pass_node comment d rest h = refl

      pass_nodes :
          (xs : Nodes) (d : ℕ) (rest : List Token)
          → 2 ≤ d
          → find_reference decode name d (nodes_tokens xs ++ rest)
            ≡ find_reference decode name d rest
      pass_nodes nil d rest h = refl
      pass_nodes (cons x xs) d rest h =
          rw append_assoc (pass_node x d (nodes_tokens xs ++ rest) h ∙ pass_nodes xs d rest h)

    open_child :
        (n : Bytes) (attrs : List Attr) (ts : List Token)
        → find_reference decode name 1 (start n attrs ∷ ts) ≡ (
            if str_eq n name
            then reference_of (decode (start n attrs ∷ ts))
            else find_reference decode name 2 ts)
    unfolding find_reference
    open_child n attrs ts = refl

    open_root :
        (n : Bytes) (attrs : List Attr) (ts : List Token)
        → find_reference decode name 0 (start n attrs ∷ ts) ≡ find_reference decode name 1 ts
    unfolding find_reference
    open_root n attrs ts = refl

    nothing_left : (n : Bytes) → find_reference decode name 1 (stop n ∷ []) ≡ none
    unfolding find_reference
    nothing_left n = refl

    after_text :
        (s : Bytes) (ts : List Token)
        → find_reference decode name 1 (node_tokens (text s) ++ ts)
          ≡ find_reference decode name 1 ts
    unfolding find_reference node_tokens
    after_text s ts = refl

    after_comment :
        (ts : List Token)
        → find_reference decode name 1 (node_tokens comment ++ ts) ≡ find_reference decode name 1 ts
    unfolding find_reference node_tokens
    after_comment ts = refl

    behind_child :
        (n : Bytes) (attrs : List Attr) (body : Nodes) (rest : List Token)
        → str_eq n name ≡ false
        → find_reference decode name 1 (node_tokens (element n attrs body) ++ rest)
          ≡ find_reference decode name 1 rest
    unfolding node_tokens
    behind_child n attrs body rest no_match = rw append_assoc (
        open_child n attrs (nodes_tokens body ++ stop n ∷ rest)
        ∙ (rw no_match (pass_nodes body 2 (stop n ∷ rest) (omega arith)))
        ∙ close_deep 1 n rest)

    module _ (reads : ReadsOne) where
      at_child :
          (n : Bytes) (attrs : List Attr) (body : Nodes) (rest : List Token)
          → str_eq n name ≡ true
          → find_reference decode name 1 (node_tokens (element n attrs body) ++ rest)
            ≡ reference_of (decode (node_tokens (element n attrs body)))
      unfolding node_tokens
      at_child n attrs body rest same =
          open_child n attrs (nodes_tokens body ++ stop n ∷ [] ++ rest)
          ∙ (rw same (ap reference_of (reads (element n attrs body) rest)))

      from_child :
          (x : Node) (xs : Nodes) (root : Bytes)
          → find_reference decode name 1 (nodes_tokens xs ++ stop root ∷ [])
            ≡ first_reference name xs
          → find_reference decode name 1 (node_tokens x ++ (nodes_tokens xs ++ stop root ∷ []))
            ≡ first_reference name (cons x xs)
      unfolding first_reference
      from_child (element n attrs body) xs root behind = elim (Bool-cases (str_eq n name)) [
        | inl same ↦ rw same (at_child n attrs body (nodes_tokens xs ++ stop root ∷ []) same)
        | inr differs ↦
            rw differs
              (behind_child n attrs body (nodes_tokens xs ++ stop root ∷ []) differs ∙ behind)
      ]
      from_child (text s) xs root behind = after_text s _ ∙ behind
      from_child comment xs root behind = after_comment _ ∙ behind

      among_children :
          (xs : Nodes) (root : Bytes)
          → find_reference decode name 1 (nodes_tokens xs ++ stop root ∷ [])
            ≡ first_reference name xs
      unfolding first_reference nodes_tokens
      among_children nil root = nothing_left root
      among_children (cons x xs) root =
          rw append_assoc (from_child x xs root (among_children xs root))

      -- If the decoder reads one element at a time, then the reference that `PropertyEPR` finds in the
      -- body of an answer is that of the first child, with the name, of the body's element; a child
      -- of a child is never taken, and there is no reference when no child has the name.
      pub property_epr-first_reference :
          (output : Bytes) (attrs : List Attr) (children : Nodes)
          → property_epr decode name (node_tokens (element output attrs children))
            ≡ first_reference name children
      unfolding property_epr node_tokens
      property_epr-first_reference output attrs children =
          open_root output attrs (nodes_tokens children ++ stop output ∷ [])
          ∙ among_children children output
