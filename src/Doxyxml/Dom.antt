-- ===== src/Doxyxml/Dom.antt =====
-- What the sources see of `xml.dom.minidom`: a tree of nodes. How a file becomes a tree is the
-- library's part, so a tree is an argument of the functions that build objects from it.
use aegir_sdr.Common.{Option, none, some, List, [], ◌∷◌, ◌++◌, Text, ◌==◌, eq_text, if◌then◌else◌}

-- `cdata` is a CDATA section; `other` is any other node, such as a comment, with its `nodeValue`.
mutual
  pub data Node : Type 0 where
    element : Text → List (Text × Text) → Nodes → Node
    text : Text → Node
    cdata : Text → Node
    other : Option Text → Node

  pub data Nodes : Type 0 where
    nil : Nodes
    cons : Node → Nodes → Nodes

infixr 67 ◌+++◌
abbrev pub ◌+++◌ : Nodes → Nodes → Nodes
nil +++ ms = ms
cons n ns +++ ms = cons n (ns +++ ms)

-- `node.nodeValue`, which is `None` for an element
abbrev pub node_value : Node → Option Text
node_value (element name attrs children) = none
node_value (text t) = some t
node_value (cdata t) = some t
node_value (other v) = v

-- `attrs.get(name)`, and the value of what it finds
unfoldable pub get_attr : List (Text × Text) → Text → Option Text
get_attr [] name = none
get_attr ((n, v) ∷ attrs) name = if eq_text n name then some v else get_attr attrs name

-- `name.split(':')[-1]`
unfoldable after_colon : Text → Text → Text
after_colon seen [] = seen
after_colon seen (c ∷ s) = if c == b':' then after_colon [] s else after_colon (seen ++ c ∷ []) s

unfoldable pub local_name : Text → Text
unfolding after_colon
local_name name = after_colon [] name

-- `for text__content_ in child_.childNodes: name_ += text__content_.nodeValue`; `none` is the
-- `TypeError` where a value is `None`.
unfoldable pub text_content : Text → Nodes → Option Text
text_content seen nil = some seen
text_content seen (cons n ns) = elim (node_value n) [
  | none ↦ none
  | some v ↦ text_content (seen ++ v) ns
]
