-- ===== src/Doxyxml/Index/Build.antt =====
-- The objects of an index come back from the nodes that stand for them.
use aegir_sdr.Common.{
  Bool, Option-cases, inl, inr, none, some, List, ap, [], ◌∷◌, ◌++◌, ◌≡◌, refl, ◌∙◌, Text, codes,
  eq_text, append_assoc, append-nil,
}
use aegir_sdr.Doxyxml.Dom.{
  Node, element, text, Nodes, nil, cons, get_attr, local_name, text_content,
}
use aegir_sdr.Doxyxml.Index.{
  attr_or, MemberType, CompoundType, DoxygenType, new_member, member_child, build_all, build_member,
  new_compound, compound_child, build_compound, new_doxygen, doxygen_child, build_doxygen,
}

-- A member, with its three texts, and the text that stands in front of its element, in front of its name,
-- and behind its name.
pub record Member : Type 0 where
  pub gap : Text
  pub name_gap : Text
  pub end_gap : Text
  pub kind : Text
  pub refid : Text
  pub name : Text

pub record Compound : Type 0 where
  pub gap : Text
  pub name_gap : Text
  pub end_gap : Text
  pub kind : Text
  pub refid : Text
  pub name : Text
  pub members : List Member

-- The object of a member, and so on.
abbrev pub member_of : Member → MemberType
member_of m = record { kind = some m.kind; refid = some m.refid; name = some m.name }

abbrev map_all {ℓ κ} : {A : Type ℓ} {B : Type κ} → (A → B) → List A → List B
map_all f [] = []
map_all f (x ∷ xs) = f x ∷ map_all f xs

abbrev pub compound_of : Compound → CompoundType
compound_of c = record {
  kind = some c.kind;
  refid = some c.refid;
  name = some c.name;
  member = map_all member_of c.members;
}

abbrev pub name_node : Text → Node
name_node n = element (codes "name") [] (cons (text n) nil)

abbrev pub attributes : Text → Text → List (Text × Text)
attributes refid kind = (codes "refid", refid) ∷ (codes "kind", kind) ∷ []

-- The nodes of a member, with a text in front of each element and at the end.
abbrev pub member_children : Member → Nodes
member_children m = cons (text m.name_gap) (cons (name_node m.name) (cons (text m.end_gap) nil))

abbrev pub member_nodes : List Member → Text → Nodes
member_nodes [] end = cons (text end) nil
member_nodes (m ∷ ms) end = cons (text m.gap) (
    cons (element (codes "member") (attributes m.refid m.kind) (member_children m))
      (member_nodes ms end))

abbrev pub compound_children : Compound → Nodes
compound_children c =
    cons (text c.name_gap) (cons (name_node c.name) (member_nodes c.members c.end_gap))

abbrev pub compound_nodes : List Compound → Text → Nodes
compound_nodes [] end = cons (text end) nil
compound_nodes (c ∷ cs) end = cons (text c.gap) (
    cons (element (codes "compound") (attributes c.refid c.kind) (compound_children c))
      (compound_nodes cs end))

build_member-node :
    (sub : Bool) (m : Member)
    → build_member sub (attributes m.refid m.kind) (member_children m) ≡ some (member_of m)
unfolding build_member build_all member_child new_member get_attr eq_text local_name text_content
build_member-node sub m = refl

build_members :
    (sub : Bool) (end : Text) (ms : List Member) (c : CompoundType)
    → build_all (compound_child sub) c (member_nodes ms end)
      ≡ some (record c { member = c.member ++ map_all member_of ms })
unfolding build_all compound_child eq_text local_name
build_members sub end [] c = rw append-nil
build_members sub end (m ∷ ms) c =
    rw (build_member-node sub m, build_all)
      (build_members sub end ms (record c { member = c.member ++ member_of m ∷ [] })
        ∙ rw append_assoc)

build_compound-node :
    (sub : Bool) (c : Compound)
    → build_compound sub (attributes c.refid c.kind) (compound_children c) ≡ some (compound_of c)
unfolding build_compound build_all compound_child new_compound get_attr eq_text local_name
    text_content
build_compound-node sub c =
    build_members sub c.end_gap c.members
      (record { kind = some c.kind; refid = some c.refid; name = some c.name; member = [] })

build_compounds :
    (sub : Bool) (end : Text) (cs : List Compound) (d : DoxygenType)
    → build_all (doxygen_child sub) d (compound_nodes cs end)
      ≡ some (record d { compound = d.compound ++ map_all compound_of cs })
unfolding build_all doxygen_child eq_text local_name
build_compounds sub end [] d = rw append-nil
build_compounds sub end (c ∷ cs) d =
    rw (build_compound-node sub c, build_all)
      (build_compounds sub end cs (record d { compound = d.compound ++ compound_of c ∷ [] })
        ∙ rw append_assoc)

given_version :
    (attrs : List (Text × Text)) (name : Text) → attr_or attrs name none ≡ get_attr attrs name
given_version attrs name = elim (Option-cases (get_attr attrs name)) [
  | inl e ↦ rw (e, attr_or)
  | inr (v, e) ↦ rw (e, attr_or)
]

-- From the tree of an index file the objects are built that the file describes, in its order,
-- with their attributes and names, whatever text stands in front of and behind each element, and whatever
-- attributes the root has beside its version.
pub build_doxygen-nodes :
    (sub : Bool) (attrs : List (Text × Text)) (cs : List Compound) (end : Text)
    → build_doxygen sub attrs (compound_nodes cs end)
      ≡ some
          (record { version = get_attr attrs (codes "version"); compound = map_all compound_of cs })
unfolding build_doxygen new_doxygen
build_doxygen-nodes sub attrs cs end =
    build_compounds sub end cs (new_doxygen attrs)
    ∙ ap (λ v. some (record { version = v; compound = map_all compound_of cs }))
        (given_version attrs (codes "version"))
