-- ===== src/Doxyxml/Index.antt =====
-- generated/indexsuper.py and generated/index.py: the classes of the index file of doxygen,
-- built from its tree of nodes, searched, and exported. Raised exceptions are `none`.
pub mod Build
pub mod Export
pub mod Literal
pub mod Find
mod Tests
use aegir_sdr.Common.{
  ℕ, zero, suc, Bool, true, false, ◌||◌, Option, none, some, List, [], ◌∷◌, ◌++◌, Text, codes,
  eq_text, if◌then◌else◌,
}
use aegir_sdr.Doxyxml.Dom.{
  Node, element, text, other, Nodes, nil, cons, get_attr, local_name, text_content,
}

pub record MemberType : Type 0 where
  pub kind : Option Text
  pub refid : Option Text
  pub name : Option Text

pub record CompoundType : Type 0 where
  pub kind : Option Text
  pub refid : Option Text
  pub name : Option Text
  pub member : List MemberType

pub record DoxygenType : Type 0 where
  pub version : Option Text
  pub compound : List CompoundType

-- The default of `name`: `''` in the classes of index.py, which set `subclass`, and `None` where
-- indexsuper.py stands alone.
abbrev pub default_name : Bool → Option Text
default_name true = some []
default_name false = none

-- `if attrs.get(n): self.f = attrs.get(n).value`
abbrev pub attr_or : List (Text × Text) → Text → Option Text → Option Text
attr_or attrs n old = elim (get_attr attrs n) [ some v ↦ some v | none ↦ old ]

abbrev pub is_named : Text → Text → Bool
is_named name wanted = eq_text (local_name name) wanted

-- `MemberType.factory()` and its `buildAttributes`
unfoldable pub new_member : Bool → List (Text × Text) → MemberType
new_member sub attrs = record {
  kind = attr_or attrs (codes "kind") none;
  refid = attr_or attrs (codes "refid") none;
  name = default_name sub;
}

-- `MemberType.buildChildren`
unfoldable pub member_child : MemberType → Node → Option MemberType
member_child m (element n attrs children) =
    if is_named n (codes "name")
    then elim (text_content [] children) [
      | none ↦ none
      | some v ↦ some (record m { name = some v })
    ]
    else some m
member_child m _ = some m

-- The loop of `build` over the children.
unfoldable pub build_all {ℓ} : {A : Type ℓ} → (A → Node → Option A) → A → Nodes → Option A
build_all child a nil = some a
build_all child a (cons n ns) = elim (child a n) [ none ↦ none | some b ↦ build_all child b ns ]

-- `MemberType.build`, on an element
unfoldable pub build_member : Bool → List (Text × Text) → Nodes → Option MemberType
build_member sub attrs children = build_all member_child (new_member sub attrs) children

unfoldable pub new_compound : Bool → List (Text × Text) → CompoundType
new_compound sub attrs = record {
  kind = attr_or attrs (codes "kind") none;
  refid = attr_or attrs (codes "refid") none;
  name = default_name sub;
  member = [];
}

-- `CompoundType.buildChildren`
unfoldable pub compound_child : Bool → CompoundType → Node → Option CompoundType
compound_child sub c (element n attrs children) =
    if is_named n (codes "name")
    then elim (text_content [] children) [
      | none ↦ none
      | some v ↦ some (record c { name = some v })
    ]
    else if is_named n (codes "member")
    then elim (build_member sub attrs children) [
      | none ↦ none
      | some m ↦ some (record c { member = c.member ++ m ∷ [] })
    ]
    else some c
compound_child sub c _ = some c

unfoldable pub build_compound : Bool → List (Text × Text) → Nodes → Option CompoundType
build_compound sub attrs children = build_all (compound_child sub) (new_compound sub attrs) children

unfoldable pub new_doxygen : List (Text × Text) → DoxygenType
new_doxygen attrs = record { version = attr_or attrs (codes "version") none; compound = [] }

-- `DoxygenType.buildChildren`
unfoldable pub doxygen_child : Bool → DoxygenType → Node → Option DoxygenType
doxygen_child sub d (element n attrs children) =
    if is_named n (codes "compound")
    then elim (build_compound sub attrs children) [
      | none ↦ none
      | some c ↦ some (record d { compound = d.compound ++ c ∷ [] })
    ]
    else some d
doxygen_child sub d _ = some d

-- `parse` of index.py, from the root element of the document on
unfoldable pub build_doxygen : Bool → List (Text × Text) → Nodes → Option DoxygenType
build_doxygen sub attrs children = build_all (doxygen_child sub) (new_doxygen attrs) children

-- `CompoundTypeSub.find_members`; the matches of `details` are arguments
unfoldable pub find_members : (MemberType → Bool) → List MemberType → List MemberType
find_members match_member [] = []
find_members match_member (m ∷ ms) =
    let rest = find_members match_member ms in if match_member m then m ∷ rest else rest

-- One turn of its loop, in front of the rest
abbrev pub add_result :
    (CompoundType → Bool)
    → CompoundType
    → List MemberType
    → List (CompoundType × List MemberType)
    → List (CompoundType × List MemberType)
add_result match_compound c (m ∷ ms) rest = (c, m ∷ ms) ∷ rest
add_result match_compound c [] rest = if match_compound c then (c, []) ∷ rest else rest

-- `DoxygenTypeSub.find_compounds_and_members`
unfoldable pub find_compounds_and_members :
    (CompoundType → Bool)
    → (MemberType → Bool)
    → List CompoundType
    → List (CompoundType × List MemberType)
find_compounds_and_members match_compound match_member [] = []
find_compounds_and_members match_compound match_member (c ∷ cs) =
    add_result match_compound c (find_members match_member c.member)
      (find_compounds_and_members match_compound match_member cs)
