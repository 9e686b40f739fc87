-- ===== src/Doxyxml/Compound/Tests.antt =====
-- The theorems on built objects, on small trees.
use aegir_sdr.Common.{
  Option, none, if◌then◌else◌, Text, eq_text, List, [], ◌∷◌, some, ◌≡◌, refl, codes,
}
use aegir_sdr.Doxyxml.Base.{returns}
use aegir_sdr.Doxyxml.Description.{description_bit}
use aegir_sdr.Doxyxml.Dom.{
  Node, element, text, other, Nodes, cons, nil, local_name, text_content, get_attr,
}
use aegir_sdr.Doxyxml.Compound.Classes.{doxygen_type, compounddef_type, description_type}
use aegir_sdr.Doxyxml.Compound.Object.{Value, missing, append_field, get_field, set_field}
use aegir_sdr.Doxyxml.Compound.Build.{
  build, parse, build_children, build_child, find_rule, start, build_attributes, build_attribute,
  build_text, add_mixed_text, add_value, sub_text, apply_rule, build_object,
}
use aegir_sdr.Doxyxml.Compound.Text.Inline.{words, reference, markup}
use aegir_sdr.Doxyxml.Compound.Text.Paragraph.{Para, description_nodes, build-description_text}
use aegir_sdr.Doxyxml.Compound.Text.{bit_of}
use aegir_sdr.Doxyxml.Compound.Read.{Element, read_file}
use aegir_sdr.Doxyxml.Compound.Total.{are_buildable, is_buildable}
use aegir_sdr.Doxyxml.Compound.Find.{find_in_compound}
use aegir_sdr.Doxyxml.Compound.Find.Ids.{built_from, first_in_compound, find_in_compound-tree}
use aegir_sdr.Doxyxml.Compound.Total.Returns.{build-are_buildable}
use aegir_sdr.Doxyxml.Compound.Read.File.{parse-read_file}
use aegir_sdr.Doxyxml.DoxyIndex.{CompoundDef, Comment}

-- "Tunes <ref>tuner</ref> to <bold>one</bold> frequency."
abbrev paragraphs : List Para
paragraphs =
    record {
      gap = codes "\n";
      inlines =
          words (codes "Tunes ")
          ∷ reference (codes "tuner_id") (codes "compound") (codes "tuner")
          ∷ words (codes " to ")
          ∷ markup (codes "bold") [] (cons (text (codes "one")) nil)
          ∷ words (codes " frequency.")
          ∷ [];
    }
    ∷ []

build-description_text_example :
    (v : Value) × (build description_type [] (description_nodes paragraphs (codes "\n  ")) ≡ some v)
    × (description_bit (bit_of v) ≡ returns (codes "\nTunes tuner to  frequency.\n\n\n  "))
unfolding find_rule eq_text local_name
build-description_text_example = build-description_text paragraphs (codes "\n  ") refl

-- The file of a class with a method in each of two sections, and a comment.
abbrev method : Text → Node
method n = element (codes "memberdef") ((codes "kind", codes "function") ∷ (codes "id", n) ∷ []) (
    cons (element (codes "type") [] (cons (text (codes "void")) nil))
      (cons (element (codes "name") [] (cons (text n) nil)) nil))

abbrev section : Text → Node
section n =
    element (codes "sectiondef") ((codes "kind", codes "public-func") ∷ []) (cons (method n) nil)

abbrev class_attrs : List (Text × Text)
class_attrs = (codes "kind", codes "class") ∷ (codes "id", codes "tuner_id") ∷ []

abbrev class_children : Nodes
class_children = cons (element (codes "compoundname") [] (cons (text (codes "tuner")) nil)) (
    cons (section (codes "set")) (
      cons (other (some (codes "unused"))) (
        cons
          (element (codes "innerclass") ((codes "refid", codes "inner_id") ∷ [])
            (cons (text (codes "inner")) nil))
          (cons (section (codes "get"))
            (cons (element (codes "detaileddescription") [] (cons (text (codes "\n")) nil)) nil)))))

abbrev class_file : Nodes
class_file =
    cons (text (codes "\n")) (cons (element (codes "compounddef") class_attrs class_children) nil)

abbrev or_missing : Option Value → Value
or_missing none = missing
or_missing (some v) = v

abbrev or_empty : Option Comment → Comment
or_empty none = record { briefdescription = none; detaileddescription = none; parameterlists = [] }
or_empty (some c) = c

abbrev said : CompoundDef
said = record {
  sectiondef =
      (record { kind = codes "function"; name = codes "set" } ∷ [])
      ∷ (record { kind = codes "function"; name = codes "get" } ∷ [])
      ∷ [];
  innergroup = [];
  innerclass = codes "inner_id" ∷ [];
}

parse-read_file_example : read_file (or_missing (parse [] class_file)) ≡ some said
unfolding parse build build_children build_child find_rule eq_text local_name start text_content
    build_attributes build_attribute get_attr build_text add_mixed_text add_value sub_text
    apply_rule build_object append_field get_field set_field
parse-read_file_example = parse-read_file [] class_file (or_missing (parse [] class_file)) refl

abbrev files : Text → Option Element
files refid = if eq_text refid (codes "tuner_id") then some ([], class_file) else none

build-are_buildable_example : (v : Value) × (build doxygen_type [] class_file ≡ some v)
unfolding are_buildable is_buildable find_rule eq_text local_name text_content get_attr
build-are_buildable_example = (build-are_buildable doxygen_type [] class_file).1 refl

find_in_compound-tree_example :
    (r : Option Value) × (find_in_compound
        (codes "get")
        (or_missing (build compounddef_type class_attrs class_children))
      ≡ some r)
    × (built_from (first_in_compound (codes "get") (class_attrs, class_children)) ≡ some r)
unfolding build build_children build_child find_rule eq_text local_name start text_content
    build_attributes build_attribute get_attr build_text add_mixed_text add_value sub_text
    apply_rule build_object append_field get_field set_field
find_in_compound-tree_example =
    find_in_compound-tree (codes "get") class_attrs class_children
      (or_missing (build compounddef_type class_attrs class_children)) refl
