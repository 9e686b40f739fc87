-- ===== src/Doxyxml/Tests.antt =====
-- The theorems on the documentation objects, on small indexes.
use aegir_sdr.Common.{true, some, none, [], ◌∷◌, ◌≡◌, refl, Text, codes, if◌then◌else◌, eq_text}
use aegir_sdr.Doxyxml.Base.{
  returns, raises, attribute_error, get_member, has_member, get_first, in_category,
}
use aegir_sdr.Doxyxml.Description.{
  Bit, content, value, string, nil, cons, description_bit, description, set_descriptions,
  set_parameters, parse_items,
}
use aegir_sdr.Doxyxml.Description.Breaks.{Keeps, strings, is_known, description_bit-Keeps}
use aegir_sdr.Doxyxml.Base.Lookup.{named_nil, named_cons, get_member-verdict}
use aegir_sdr.Doxyxml.DoxyIndex.{
  parse_class, doxy_class, doxy_function, doxy_group, MemberDef, IndexCompound, CompoundDef,
  Comment, Library, Object, doxy_objects, get_cls, first_class, find_ref, from_refid, members,
  parse_index, object_name, process_memberdefs, add_uniques, convert_member, add_compound,
  add_by_class, convert_compound,
}
use aegir_sdr.Doxyxml.DoxyIndex.Unique.{
  known_nil, known_cons, member_object, name_of, get_first-class,
}
use aegir_sdr.Doxyxml.DoxyIndex.Broken.{namespace_of, parse_index-broken}
use aegir_sdr.Doxyxml.DoxyIndex.Listed.{get_member-group}

abbrev paragraph : Bit
paragraph =
    content (some (codes "para"))
      (cons (string (codes "Tunes ")) (cons (value none (string (codes "it."))) nil))

description_bit-Keeps_example : Keeps (description_bit paragraph) (codes "Tunes it.")
unfolding strings
description_bit-Keeps_example = description_bit-Keeps paragraph (unfold is_known in refl)

abbrev method : Text → MemberDef
method n = record { kind = codes "function"; name = n }

-- A class with two overloads of `set`, and one method `get`.
abbrev tuner : CompoundDef
tuner = record {
  sectiondef = (method (codes "set") ∷ method (codes "get") ∷ method (codes "set") ∷ []) ∷ [];
  innergroup = [];
  innerclass = [];
}

abbrev uncommented : Comment
uncommented = record {
  briefdescription = none;
  detaileddescription = some (content none nil);
  parameterlists = [];
}

abbrev library : Library
library refid =
    returns (if eq_text refid (codes "tuner_id") then some (tuner, uncommented) else none)

abbrev tuner_object : Object
tuner_object = record {
  cls = doxy_class;
  refid = some (codes "tuner_id");
  name = some (codes "tuner");
}

function_class : get_cls (codes "function") ≡ some doxy_function
unfolding get_cls first_class eq_text
function_class = refl

in_tuner :
    members library [] tuner_object
    ≡ returns (
        some (member_object (method (codes "set")) doxy_function)
        ∷ some (member_object (method (codes "get")) doxy_function)
        ∷ [])
unfolding members process_memberdefs add_uniques convert_member get_cls first_class eq_text
    set_descriptions description description_bit set_parameters parse_items
in_tuner = refl

get_member-verdict_example :
    (get_member (doxy_objects library []) none tuner_object (codes "get")
      ≡ returns (member_object (method (codes "get")) doxy_function))
    × (has_member (doxy_objects library []) none tuner_object (codes "get") ≡ returns true)
unfolding in_category object_name eq_text
get_member-verdict_example =
    get_member-verdict (doxy_objects library []) name_of none tuner_object
      (member_object (method (codes "set")) doxy_function
        ∷ member_object (method (codes "get")) doxy_function
        ∷ [])
      (named_cons refl (named_cons refl named_nil)) in_tuner (codes "get") refl

get_first-class_example :
    get_first (doxy_objects library []) none tuner_object (codes "set")
    ≡ returns (member_object (method (codes "set")) doxy_function)
unfolding eq_text set_descriptions description description_bit set_parameters parse_items
get_first-class_example =
    get_first-class library [] (codes "tuner_id") (some (codes "tuner")) tuner uncommented refl
      (known_cons doxy_function function_class (
        known_cons doxy_function function_class
          (known_cons doxy_function function_class known_nil)))
      (codes "set")

-- The same class without a detailed description.
undescribed_class :
    parse_class (some (tuner, record uncommented { detaileddescription = none }))
    ≡ raises attribute_error
unfolding set_descriptions description
undescribed_class = refl

abbrev tuner_compound : IndexCompound
tuner_compound = record { kind = codes "class"; refid = codes "tuner_id"; name = codes "tuner" }

parse_index-broken_example :
    parse_index library []
      (tuner_compound ∷ namespace_of (codes "ns") (codes "gr") ∷ tuner_compound ∷ [])
    ≡ (some tuner_object ∷ [], some attribute_error)
unfolding parse_index add_compound add_by_class get_cls first_class convert_compound eq_text
parse_index-broken_example =
    parse_index-broken library [] (tuner_compound ∷ []) (tuner_compound ∷ []) (codes "ns")
      (codes "gr") refl refl

-- A group with an inner class.
abbrev receivers : CompoundDef
receivers = record { sectiondef = []; innergroup = []; innerclass = codes "tuner_id" ∷ [] }

abbrev groups : Library
groups refid =
    if eq_text refid (codes "group_id")
    then returns (some (receivers, uncommented))
    else library refid

get_member-group_example :
    (get_member
        (doxy_objects groups ((codes "tuner_id", tuner_object) ∷ []))
        none
        (record {
          cls = doxy_group;
          refid = some (codes "group_id");
          name = some (codes "receivers");
        })
        (codes "tuner")
      ≡ returns tuner_object)
    × (has_member
          (doxy_objects groups ((codes "tuner_id", tuner_object) ∷ []))
          none
          (record {
            cls = doxy_group;
            refid = some (codes "group_id");
            name = some (codes "receivers");
          })
          (codes "tuner")
        ≡ returns true)
unfolding eq_text find_ref from_refid
get_member-group_example =
    get_member-group groups ((codes "tuner_id", tuner_object) ∷ []) (codes "group_id")
      (some (codes "receivers")) receivers uncommented refl known_nil refl refl (codes "tuner") refl
