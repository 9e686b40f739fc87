-- ===== src/Doxyxml/Compound/Read.antt =====
-- What doxyindex.py reads of the objects of a file, and the same read of the tree of the file.
pub mod Stored
pub mod Frame
pub mod Children
pub mod Last
pub mod Attributes
pub mod File
use aegir_sdr.Common.{Option, none, some, List, [], ◌∷◌, Text, codes, eq_text, if◌then◌else◌}
use aegir_sdr.Doxyxml.Dom.{
  Node, element, text, cdata, other, Nodes, nil, cons, local_name, get_attr, text_content,
}
use aegir_sdr.Doxyxml.Compound.Object.{
  and_then, Value, missing, string, number, list, object, mixed_container, Values, Fields,
  get_field,
}
use aegir_sdr.Doxyxml.Compound.Text.{text_of}
use aegir_sdr.Doxyxml.DoxyIndex.{MemberDef, CompoundDef}

abbrev pub list_of : Option Value → Option Values
list_of (some (list vs)) = some vs
list_of _ = none

abbrev pub fields_of : Value → Option Fields
fields_of (object c fs) = some fs
fields_of missing = none
fields_of (string s) = none
fields_of (number n) = none
fields_of (list vs) = none
fields_of (mixed_container c name v) = none

module _ {A : Type 0} where
  abbrev pub read_all : (Value → Option A) → Values → Option (List A)
  read_all read Values.nil = some []
  read_all read (Values.cons v vs) =
      and_then (read v) (λ a. and_then (read_all read vs) (λ as_. some (a ∷ as_)))

-- `mem.kind` and `mem.name` of a `memberdef`; `none` is an attribute that is no text.
abbrev pub member_of : Option Text → Option Text → Option MemberDef
member_of kind name = and_then kind (λ k. and_then name (λ n. some (record { kind = k; name = n })))

abbrev pub read_member : Value → Option MemberDef
read_member v = and_then (fields_of v) (λ fs.
    member_of (text_of (get_field fs (codes "kind"))) (text_of (get_field fs (codes "name"))))

-- `sec.memberdef`
abbrev pub read_section : Value → Option (List MemberDef)
read_section v =
    and_then (fields_of v)
      (λ fs. and_then (list_of (get_field fs (codes "memberdef"))) (read_all read_member))

-- `data.refid`
abbrev pub read_refid : Value → Option Text
read_refid v = and_then (fields_of v) (λ fs. text_of (get_field fs (codes "refid")))

abbrev pub compound_of :
    Option (List (List MemberDef)) → Option (List Text) → Option (List Text) → Option CompoundDef
compound_of sections groups classes = and_then sections (λ ss. and_then groups (λ gs.
    and_then classes (λ cs. some (record { sectiondef = ss; innergroup = gs; innerclass = cs }))))

abbrev pub read_list {ℓ} : {A : Type ℓ} → (Values → Option A) → Fields → Text → Option A
read_list read fs name = and_then (list_of (get_field fs name)) read

-- `cdef.sectiondef`, `cdef.innergroup` and `cdef.innerclass`
abbrev pub read_compound : Value → Option CompoundDef
read_compound v = and_then (fields_of v) (λ fs.
    compound_of (read_list (read_all read_section) fs (codes "sectiondef"))
      (read_list (read_all read_refid) fs (codes "innergroup"))
      (read_list (read_all read_refid) fs (codes "innerclass")))

-- `self._retrieved_data.compounddef`
abbrev pub read_file : Value → Option CompoundDef
read_file v =
    and_then (fields_of v) (λ fs. and_then (get_field fs (codes "compounddef")) read_compound)

-- An element, without its name.
abbrev pub Element : Type 0
Element = List (Text × Text) × Nodes

-- The children of a name, in their order.
abbrev pub add_named : Text → Node → List Element → List Element
add_named k (element name attrs children) rest =
    if eq_text (local_name name) k then (attrs, children) ∷ rest else rest
add_named k (text t) rest = rest
add_named k (cdata t) rest = rest
add_named k (other v) rest = rest

abbrev pub named : Text → Nodes → List Element
named k nil = []
named k (cons n ns) = add_named k n (named k ns)

abbrev pub content_or_empty : Option Text → Text
content_or_empty none = []
content_or_empty (some t) = t

-- The text of the last of the elements
abbrev pub last_text : Text → List Element → Text
last_text t [] = t
last_text t ((attrs, children) ∷ es) = last_text (content_or_empty (text_content [] children)) es

module _ {A : Type 0} where
  abbrev pub tree_all : (Element → Option A) → List Element → Option (List A)
  tree_all tree [] = some []
  tree_all tree (e ∷ es) =
      and_then (tree e) (λ a. and_then (tree_all tree es) (λ as_. some (a ∷ as_)))

abbrev pub last_element : List Element → Option Element
last_element [] = none
last_element (e ∷ []) = some e
last_element (e ∷ d ∷ es) = last_element (d ∷ es)

-- The same of the tree: an element is an element of the file, and nothing is built.
abbrev pub tree_member : Element → Option MemberDef
tree_member (attrs, ns) =
    member_of (get_attr attrs (codes "kind")) (some (last_text [] (named (codes "name") ns)))

abbrev pub tree_section : Element → Option (List MemberDef)
tree_section (attrs, ns) = tree_all tree_member (named (codes "memberdef") ns)

abbrev pub tree_refid : Element → Option Text
tree_refid (attrs, ns) = get_attr attrs (codes "refid")

abbrev pub tree_compound : Element → Option CompoundDef
tree_compound (attrs, ns) =
    compound_of (tree_all tree_section (named (codes "sectiondef") ns))
      (tree_all tree_refid (named (codes "innergroup") ns))
      (tree_all tree_refid (named (codes "innerclass") ns))

abbrev pub tree_file : Nodes → Option CompoundDef
tree_file ns = and_then (last_element (named (codes "compounddef") ns)) tree_compound
