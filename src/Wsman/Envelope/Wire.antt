-- ===== src/Wsman/Envelope/Wire.antt =====
-- wsman/envelope.go: envelopes as XML, by the tags of the structs for marshalling, whose names have
-- prefixes, and of those for unmarshalling, whose names have namespaces. A document is what the encoder
-- of encoding/xml is given, and what its decoder has read; what becomes of the texts in between is
-- a parameter, `XmlTexts`. An element that occurs twice is read where it occurs last.
use go_wsman.Common.{
  ℕ, ◌-◌, ◌^◌, Bool, ◌&&◌, Option, none, some, List, [], ◌∷◌, ◌++◌, map, Bytes, codes, String,
  str_eq, is_empty, if◌then◌else◌,
}
use go_wsman.Common.Decimal.{format_uint, parse_uint}
use go_wsman.Common.Options.{◌>>=◌}
use go_wsman.Wsman.Envelope.{
  Action, ResourceUri, MaxEnvelopeSize, OperationTimeout, MessageId, To, Address, ReplyTo, Selector,
  SelectorSet, Header, Envelope, empty_header,
}

-- `NSEnvelope`, `NSAddressing` and `NSWsman`
abbrev pub ns_envelope : Bytes
ns_envelope = codes "http://www.w3.org/2003/05/soap-envelope"

abbrev pub ns_addressing : Bytes
ns_addressing = codes "http://schemas.xmlsoap.org/ws/2004/08/addressing"

abbrev pub ns_wsman : Bytes
ns_wsman = codes "http://schemas.dmtf.org/wbem/wsman/1/wsman.xsd"

-- a name, with its prefix where it is written and with its namespace where it is read
pub record Name : Type 0 where
  pub space : Bytes
  pub local : Bytes

pub record Attribute : Type 0 where
  pub name : Name
  pub value : Bytes

-- an element that has a text
pub record Leaf : Type 0 where
  pub name : Name
  pub attributes : List Attribute
  pub text : Bytes

pub data Node : Type 0 where
  leaf : Leaf → Node
  branch : Name → List Leaf → Node

-- the document: its root, the prefixes that it binds, the children of its header, its body
pub record Document : Type 0 where
  pub root : Name
  pub bindings : List (Bytes × Bytes)
  pub header : List Node
  pub body : Bytes

abbrev pub named : String → String → Name
named space local = record { space = codes space; local = codes local }

-- the tag `s:mustUnderstand,attr,omitempty`
abbrev pub understood : Bytes → List Attribute
understood v =
    if is_empty v then [] else record { name = named "s" "mustUnderstand"; value = v } ∷ []

abbrev pub text_leaf : String → String → List Attribute → Bytes → Leaf
text_leaf space local attributes v = record {
  name = named space local;
  attributes = attributes;
  text = v;
}

-- the pointers of `marshalHeader`, each with its tag
abbrev pub action_nodes : Option Action → List Node
action_nodes none = []
action_nodes (some a) = leaf (text_leaf "a" "Action" (understood a.must_understand) a.value) ∷ []

abbrev pub resource_nodes : Option ResourceUri → List Node
resource_nodes none = []
resource_nodes (some r) =
    leaf (text_leaf "w" "ResourceURI" (understood r.must_understand) r.value) ∷ []

abbrev pub size_nodes : Option MaxEnvelopeSize → List Node
size_nodes none = []
size_nodes (some m) =
    leaf (text_leaf "w" "MaxEnvelopeSize" (understood m.must_understand) (format_uint m.value)) ∷ []

abbrev pub timeout_nodes : Option OperationTimeout → List Node
timeout_nodes none = []
timeout_nodes (some t) = leaf (text_leaf "w" "OperationTimeout" [] t.value) ∷ []

abbrev pub message_nodes : Option MessageId → List Node
message_nodes none = []
message_nodes (some m) = leaf (text_leaf "a" "MessageID" [] m.value) ∷ []

abbrev pub reply_nodes : Option ReplyTo → List Node
reply_nodes none = []
reply_nodes (some r) =
    branch (named "a" "ReplyTo")
      (text_leaf "a" "Address" (understood r.address.must_understand) r.address.value ∷ [])
    ∷ []

abbrev pub to_nodes : Option To → List Node
to_nodes none = []
to_nodes (some t) = leaf (text_leaf "a" "To" (understood t.must_understand) t.value) ∷ []

abbrev pub selector_leaf : Selector → Leaf
selector_leaf s =
    text_leaf "w" "Selector" (record { name = named "" "Name"; value = s.name } ∷ []) s.value

abbrev pub selector_nodes : Option SelectorSet → List Node
selector_nodes none = []
selector_nodes (some s) = branch (named "w" "SelectorSet") (map selector_leaf s.selectors) ∷ []

-- `toMarshal`, as the encoder writes it
unfoldable pub to_marshal : Header → List Node
to_marshal h =
    action_nodes h.action
    ++ (resource_nodes h.resource_uri
        ++ (size_nodes h.max_envelope_size
            ++ (timeout_nodes h.operation_timeout
                ++ (message_nodes h.message_id
                    ++ (reply_nodes h.reply_to
                        ++ (to_nodes h.to ++ selector_nodes h.selector_set))))))

-- `MarshalXML`
unfoldable pub marshal_xml : Envelope → Document
unfolding to_marshal
marshal_xml env = record {
  root = named "s" "Envelope";
  bindings = (codes "s", ns_envelope) ∷ (codes "a", ns_addressing) ∷ (codes "w", ns_wsman) ∷ [];
  header = to_marshal env.header;
  body = env.body;
}

-- the namespace that a prefix is bound to
unfoldable pub namespace_of : List (Bytes × Bytes) → Bytes → Bytes
namespace_of [] prefix = prefix
namespace_of ((p, uri) ∷ bindings) prefix =
    let rest = namespace_of bindings prefix in if str_eq p prefix then uri else rest

-- a name has the namespace and the local part
unfoldable pub is_name : List (Bytes × Bytes) → Bytes → Bytes → Name → Bool
unfolding namespace_of
is_name bindings uri local name =
    str_eq (namespace_of bindings name.space) uri && str_eq name.local local

-- the value of the attribute with the local part, the empty string if there is none
unfoldable pub attribute : Bytes → List Attribute → Bytes
attribute local [] = []
attribute local (a ∷ more) =
    let rest = attribute local more in if str_eq a.name.local local then a.value else rest

-- `int` has 64 bits
abbrev pub max_int : ℕ
max_int = 2 ^ 63 - 1

abbrev pub understanding : Leaf → Bytes
understanding l = attribute (codes "mustUnderstand") l.attributes

module _ (bindings : List (Bytes × Bytes)) where
  abbrev pub is_addressing : String → Name → Bool
  is_addressing local name = is_name bindings ns_addressing (codes local) name

  abbrev pub is_wsman : String → Name → Bool
  is_wsman local name = is_name bindings ns_wsman (codes local) name

  -- the address among the children of `ReplyTo`
  unfoldable pub read_address : List Leaf → Address → Address
  unfolding is_name attribute
  read_address [] a = a
  read_address (l ∷ ls) a = read_address ls (
      if is_addressing "Address" l.name
      then record { must_understand = understanding l; value = l.text }
      else a)

  -- the children of `SelectorSet`
  unfoldable pub read_selectors : List Leaf → List Selector
  unfolding is_name attribute
  read_selectors [] = []
  read_selectors (l ∷ ls) =
      let rest = read_selectors ls in
      if is_wsman "Selector" l.name
      then record { name = attribute (codes "Name") l.attributes; value = l.text } ∷ rest
      else rest

  abbrev pub sized : Leaf → Header → ℕ → Header
  sized l h n = record h {
    max_envelope_size = some (record { must_understand = understanding l; value = n });
  }

  -- an element with a text, by the tags of `unmarshalHeader`; a size that is no `int` is an error
  unfoldable pub read_leaf : Leaf → Header → Option Header
  unfolding is_name attribute
  read_leaf l h =
      if is_addressing "Action" l.name
      then some (record h {
        action = some (record { must_understand = understanding l; value = l.text });
      })
      else if is_wsman "ResourceURI" l.name
      then some (record h {
        resource_uri = some (record { must_understand = understanding l; value = l.text });
      })
      else if is_wsman "MaxEnvelopeSize" l.name
      then (parse_uint max_int l.text >>= λ n. some (sized l h n))
      else if is_wsman "OperationTimeout" l.name
      then some (record h { operation_timeout = some (record { value = l.text }) })
      else if is_addressing "MessageID" l.name
      then some (record h { message_id = some (record { value = l.text }) })
      else if is_addressing "To" l.name
      then some
          (record h { to = some (record { must_understand = understanding l; value = l.text }) })
      else some h

  unfoldable pub read_node : Node → Header → Option Header
  unfolding read_leaf read_address read_selectors
  read_node (leaf l) h = read_leaf l h
  read_node (branch name ls) h =
      if is_addressing "ReplyTo" name
      then some (record h {
        reply_to =
            some
              (record { address = read_address ls (record { must_understand = []; value = [] }) });
      })
      else if is_wsman "SelectorSet" name
      then some (record h { selector_set = some (record { selectors = read_selectors ls }) })
      else some h

  -- `toHeader`, of what the decoder has read
  unfoldable pub to_header : List Node → Header → Option Header
  unfolding read_node
  to_header [] h = some h
  to_header (n ∷ ns) h = read_node n h >>= λ h'. to_header ns h'

-- `UnmarshalXML`
unfoldable pub unmarshal_xml : Document → Option Envelope
unfolding to_header is_name
unmarshal_xml d =
    if is_name d.bindings ns_envelope (codes "Envelope") d.root
    then (to_header d.bindings d.header empty_header >>= λ h.
        some (record { header = h; body = d.body }))
    else none

-- encoding/xml, from the encoder to the decoder
pub record XmlTexts : Type 0 where
  -- a text or the value of an attribute
  pub read_text : Bytes → Option Bytes
  -- the `innerxml` of the body, which is written as it is
  pub read_inner : Bytes → Option Bytes

module _ (texts : XmlTexts) where
  unfoldable pub carry_attributes : List Attribute → Option (List Attribute)
  carry_attributes [] = some []
  carry_attributes (a ∷ more) = do
    v ← texts.read_text a.value
    rest ← carry_attributes more
    some (record { name = a.name; value = v } ∷ rest)

  unfoldable pub carry_leaf : Leaf → Option Leaf
  unfolding carry_attributes
  carry_leaf l = do
    attributes ← carry_attributes l.attributes
    t ← texts.read_text l.text
    some (record { name = l.name; attributes = attributes; text = t })

  unfoldable pub carry_leaves : List Leaf → Option (List Leaf)
  unfolding carry_leaf
  carry_leaves [] = some []
  carry_leaves (l ∷ ls) = do l' ← carry_leaf l; rest ← carry_leaves ls; some (l' ∷ rest)

  unfoldable pub carry_node : Node → Option Node
  unfolding carry_leaves
  carry_node (leaf l) = do l' ← carry_leaf l; some (leaf l')
  carry_node (branch name ls) = do ls' ← carry_leaves ls; some (branch name ls')

  unfoldable pub carry_nodes : List Node → Option (List Node)
  unfolding carry_node
  carry_nodes [] = some []
  carry_nodes (n ∷ ns) = do n' ← carry_node n; rest ← carry_nodes ns; some (n' ∷ rest)

  -- a document from the encoder of one side to the decoder of the other
  unfoldable pub carry : Document → Option Document
  unfolding carry_nodes
  carry d = do
    header ← carry_nodes d.header
    body ← texts.read_inner d.body
    some (record { root = d.root; bindings = d.bindings; header = header; body = body })

  -- an envelope that is written, carried and read
  unfoldable pub received : Envelope → Option Envelope
  unfolding carry
  received env = do d ← carry (marshal_xml env); unmarshal_xml d
