-- ===== src/Common/Xml.antt =====
-- The tokens that `encoding/xml` delivers, and the element trees that they stand for. How a text
-- is cut into tokens is the decoder's: the code sees `Token()` values up to `io.EOF` or an error.
use mathlib.Core.Bool.{Bool, true}
use mathlib.Core.List.{List, [], ◌∷◌, ◌++◌}
use go_wsman.Common.Text.{Bytes}

-- `xml.Attr`: the namespace and the local part of the name, and the value
pub record Attr : Type 0 where
  pub space : Bytes
  pub local : Bytes
  pub value : Bytes

pub data Token : Type 0 where
  start : Bytes → List Attr → Token
  chars : Bytes → Token
  stop : Bytes → Token
  other : Token

-- What a decoder delivers: the tokens, and whether they end with `io.EOF`.
pub record Stream : Type 0 where
  pub tokens : List Token
  pub at_eof : Bool

mutual
  pub data Node : Type 0 where
    element : Bytes → List Attr → Nodes → Node
    text : Bytes → Node
    comment : Node

  pub data Nodes : Type 0 where
    nil : Nodes
    cons : Node → Nodes → Nodes

unfoldable mutual
  pub node_tokens : Node → List Token
  node_tokens (element name attrs body) = start name attrs ∷ (nodes_tokens body ++ stop name ∷ [])
  node_tokens (text s) = chars s ∷ []
  node_tokens comment = other ∷ []

  pub nodes_tokens : Nodes → List Token
  nodes_tokens nil = []
  nodes_tokens (cons x xs) = node_tokens x ++ nodes_tokens xs

-- the stream of a well-formed fragment
abbrev pub stream_of : Nodes → Stream
stream_of doc = record { tokens = nodes_tokens doc; at_eof = true }
