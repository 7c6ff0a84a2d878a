-- ===== src/Wsman/Envelope/Roundtrip.antt =====
-- wsman/envelope.go: what is written is read back.
use go_wsman.Common.{
  true, All, ◌∙◌, ◌≤◌, ◌≡◌, refl, ap, Option, none, some, List, [], ◌∷◌, ◌++◌, map, Bytes, codes,
  str_eq,
}
use go_wsman.Common.Utf8.{xml_allowed}
use go_wsman.Common.Decimal.{parse_uint-format_uint}
use go_wsman.Wsman.Envelope.{
  ResourceUri, MaxEnvelopeSize, OperationTimeout, MessageId, To, ReplyTo, SelectorSet, Envelope,
  empty_header, Action, Selector, Header,
}
use go_wsman.Wsman.Envelope.Wire.{
  Leaf, leaf, branch, Attribute, XmlTexts, carry_attributes, carry_leaf, carry_leaves, carry_node,
  carry_nodes, carry, received, max_int, unmarshal_xml, reply_nodes, size_nodes, to_nodes,
  marshal_xml, read_address, timeout_nodes, message_nodes, to_marshal, resource_nodes,
  selector_nodes, ns_envelope, ns_addressing, ns_wsman, Node, understood, action_nodes,
  selector_leaf, namespace_of, is_name, attribute, read_selectors, read_leaf, read_node, to_header,
}

abbrev bound : List (Bytes × Bytes)
bound = (codes "s", ns_envelope) ∷ (codes "a", ns_addressing) ∷ (codes "w", ns_wsman) ∷ []

understood_read : (v : Bytes) → attribute (codes "mustUnderstand") (understood v) ≡ v
unfolding attribute str_eq
understood_read [] = refl
understood_read (c ∷ v) = refl

action_step :
    (v : Option Action) (rest : List Node) (h : Header)
    → to_header bound (action_nodes v ++ rest) (record h { action = none })
      ≡ to_header bound rest (record h { action = v })
unfolding to_header read_node read_leaf is_name namespace_of str_eq
action_step none rest h = refl
action_step (some a) rest h = rw (understood_read a.must_understand) refl

selectors_read : (ss : List Selector) → read_selectors bound (map selector_leaf ss) ≡ ss
unfolding read_selectors is_name namespace_of attribute str_eq
selectors_read [] = refl
selectors_read (s ∷ ss) = ap (λ l. s ∷ l) (selectors_read ss)

resource_step :
    (v : Option ResourceUri) (rest : List Node) (h : Header)
    → to_header bound (resource_nodes v ++ rest) (record h { resource_uri = none })
      ≡ to_header bound rest (record h { resource_uri = v })
unfolding to_header read_node read_leaf is_name namespace_of str_eq
resource_step none rest h = refl
resource_step (some r) rest h = rw (understood_read r.must_understand) refl

-- A size that is an `int` can be read.
abbrev pub SizeFits : Option MaxEnvelopeSize → Type 0
SizeFits none = Unit {0}
SizeFits (some m) = m.value ≤ max_int

size_step :
    (v : Option MaxEnvelopeSize) (rest : List Node) (h : Header)
    → SizeFits v
    → to_header bound (size_nodes v ++ rest) (record h { max_envelope_size = none })
      ≡ to_header bound rest (record h { max_envelope_size = v })
unfolding to_header read_node read_leaf is_name namespace_of str_eq
size_step none rest h fits = refl
size_step (some m) rest h fits =
    rw (parse_uint-format_uint max_int m.value fits) (rw (understood_read m.must_understand) refl)

timeout_step :
    (v : Option OperationTimeout) (rest : List Node) (h : Header)
    → to_header bound (timeout_nodes v ++ rest) (record h { operation_timeout = none })
      ≡ to_header bound rest (record h { operation_timeout = v })
unfolding to_header read_node read_leaf is_name namespace_of str_eq
timeout_step none rest h = refl
timeout_step (some t) rest h = refl

message_step :
    (v : Option MessageId) (rest : List Node) (h : Header)
    → to_header bound (message_nodes v ++ rest) (record h { message_id = none })
      ≡ to_header bound rest (record h { message_id = v })
unfolding to_header read_node read_leaf is_name namespace_of str_eq
message_step none rest h = refl
message_step (some m) rest h = refl

reply_step :
    (v : Option ReplyTo) (rest : List Node) (h : Header)
    → to_header bound (reply_nodes v ++ rest) (record h { reply_to = none })
      ≡ to_header bound rest (record h { reply_to = v })
unfolding to_header read_node read_address is_name namespace_of str_eq
reply_step none rest h = refl
reply_step (some r) rest h = rw (understood_read r.address.must_understand) refl

to_step :
    (v : Option To) (rest : List Node) (h : Header)
    → to_header bound (to_nodes v ++ rest) (record h { to = none })
      ≡ to_header bound rest (record h { to = v })
unfolding to_header read_node read_leaf is_name namespace_of str_eq
to_step none rest h = refl
to_step (some t) rest h = rw (understood_read t.must_understand) refl

selector_step :
    (v : Option SelectorSet) (h : Header)
    → to_header bound (selector_nodes v) (record h { selector_set = none })
      ≡ some (record h { selector_set = v })
unfolding to_header read_node is_name namespace_of str_eq
selector_step none h = refl
selector_step (some s) h = rw (selectors_read s.selectors) refl

to_header-to_marshal :
    (h : Header)
    → SizeFits h.max_envelope_size
    → to_header bound (to_marshal h) empty_header ≡ some h
unfolding to_marshal
to_header-to_marshal h fits =
    action_step h.action
      (resource_nodes h.resource_uri
        ++ (size_nodes h.max_envelope_size
            ++ (timeout_nodes h.operation_timeout
                ++ (message_nodes h.message_id
                    ++ (reply_nodes h.reply_to
                        ++ (to_nodes h.to ++ selector_nodes h.selector_set))))))
      empty_header
    ∙ resource_step h.resource_uri
        (size_nodes h.max_envelope_size
          ++ (timeout_nodes h.operation_timeout
              ++ (message_nodes h.message_id
                  ++ (reply_nodes h.reply_to ++ (to_nodes h.to ++ selector_nodes h.selector_set)))))
        (record empty_header { action = h.action })
    ∙ size_step h.max_envelope_size
        (timeout_nodes h.operation_timeout
          ++ (message_nodes h.message_id
              ++ (reply_nodes h.reply_to ++ (to_nodes h.to ++ selector_nodes h.selector_set))))
        (record empty_header { action = h.action; resource_uri = h.resource_uri }) fits
    ∙ timeout_step h.operation_timeout
        (message_nodes h.message_id
          ++ (reply_nodes h.reply_to ++ (to_nodes h.to ++ selector_nodes h.selector_set)))
        (record empty_header {
          action = h.action;
          resource_uri = h.resource_uri;
          max_envelope_size = h.max_envelope_size;
        })
    ∙ message_step h.message_id
        (reply_nodes h.reply_to ++ (to_nodes h.to ++ selector_nodes h.selector_set))
        (record empty_header {
          action = h.action;
          resource_uri = h.resource_uri;
          max_envelope_size = h.max_envelope_size;
          operation_timeout = h.operation_timeout;
        })
    ∙ reply_step h.reply_to (to_nodes h.to ++ selector_nodes h.selector_set) (record empty_header {
      action = h.action;
      resource_uri = h.resource_uri;
      max_envelope_size = h.max_envelope_size;
      operation_timeout = h.operation_timeout;
      message_id = h.message_id;
    })
    ∙ to_step h.to (selector_nodes h.selector_set) (record empty_header {
      action = h.action;
      resource_uri = h.resource_uri;
      max_envelope_size = h.max_envelope_size;
      operation_timeout = h.operation_timeout;
      message_id = h.message_id;
      reply_to = h.reply_to;
    })
    ∙ selector_step h.selector_set (record empty_header {
      action = h.action;
      resource_uri = h.resource_uri;
      max_envelope_size = h.max_envelope_size;
      operation_timeout = h.operation_timeout;
      message_id = h.message_id;
      reply_to = h.reply_to;
      to = h.to;
    })

-- what is written is what is read when the texts are carried unchanged
unmarshal_xml-marshal_xml :
    (env : Envelope)
    → SizeFits env.header.max_envelope_size
    → unmarshal_xml (marshal_xml env) ≡ some env
unfolding marshal_xml unmarshal_xml is_name namespace_of str_eq
unmarshal_xml-marshal_xml env fits = rw (to_header-to_marshal env.header fits) refl

-- encoding/xml escapes a text so that it is read back, if XML allows its characters.
abbrev pub KeepsTexts : XmlTexts → Type 0
KeepsTexts texts = (t : Bytes) → xml_allowed t ≡ true → texts.read_text t ≡ some t

-- XML allows the characters of the text and of the values of the attributes.
abbrev AllowedLeaf : Leaf → Type 0
AllowedLeaf l = All (λ a. xml_allowed a.value ≡ true) l.attributes × (xml_allowed l.text ≡ true)

abbrev AllowedNode : Node → Type 0
AllowedNode (leaf l) = AllowedLeaf l
AllowedNode (branch name ls) = All AllowedLeaf ls

-- XML allows the characters of all texts of the envelope's header, and the body is XML that is read as it
-- is written.
abbrev pub Sendable : XmlTexts → Envelope → Type 0
Sendable texts env =
    All AllowedNode (marshal_xml env).header × (texts.read_inner env.body ≡ some env.body)

module _ (texts : XmlTexts) (keeps : KeepsTexts texts) where
  carried_attributes :
      (attributes : List Attribute)
      → All (λ a. xml_allowed a.value ≡ true) attributes
      → carry_attributes texts attributes ≡ some attributes
  unfolding carry_attributes
  carried_attributes [] all = refl
  carried_attributes (a ∷ more) (good, all) =
      rw (keeps a.value good) (rw (carried_attributes more all) refl)

  carried_leaf : (l : Leaf) → AllowedLeaf l → carry_leaf texts l ≡ some l
  unfolding carry_leaf
  carried_leaf l (all, good) =
      rw (carried_attributes l.attributes all) (rw (keeps l.text good) refl)

  carried_leaves : (ls : List Leaf) → All AllowedLeaf ls → carry_leaves texts ls ≡ some ls
  unfolding carry_leaves
  carried_leaves [] all = refl
  carried_leaves (l ∷ ls) (good, all) = rw (carried_leaf l good) (rw (carried_leaves ls all) refl)

  carried_node : (n : Node) → AllowedNode n → carry_node texts n ≡ some n
  unfolding carry_node
  carried_node (leaf l) good = rw (carried_leaf l good) refl
  carried_node (branch name ls) all = rw (carried_leaves ls all) refl

  carried_nodes : (ns : List Node) → All AllowedNode ns → carry_nodes texts ns ≡ some ns
  unfolding carry_nodes
  carried_nodes [] all = refl
  carried_nodes (n ∷ ns) (good, all) = rw (carried_node n good) (rw (carried_nodes ns all) refl)

  -- Every envelope whose size limit is an `int`, whose texts XML allows and whose body is XML that is read
  -- as it is written, arrives as it was: all headers, the selectors in their order, and the body.
  pub received-marshal_xml :
      (env : Envelope)
      → SizeFits env.header.max_envelope_size
      → Sendable texts env
      → received texts env ≡ some env
  unfolding received carry marshal_xml
  received-marshal_xml env fits (all, inner) =
      rw (carried_nodes (marshal_xml env).header all)
        (rw inner (unmarshal_xml-marshal_xml env fits))
