-- ===== src/Doxyxml/Compound/Schema/Structure.antt =====
-- The schemas of generated/compoundsuper.py: compounds and their parts.
use aegir_sdr.Common.{true, false, [], ◌∷◌, codes}
use aegir_sdr.Doxyxml.Compound.Classes.{
  compound_ref_type, compounddef_type, description_type, doc_title_type, graph_type, inc_type,
  listing_type, listofallmembers_type, location_type, member_ref_type, ref_type, sectiondef_type,
  templateparamlist_type,
}
use aegir_sdr.Doxyxml.Compound.Object.{Fields, fields, list, missing, nil, string}
use aegir_sdr.Doxyxml.Compound.Schema.{Schema, append_object, set_object, set_text, text_attribute}

-- `DoxygenType`
abbrev doxygen_type_initial : Fields
doxygen_type_initial = fields ((codes "version", missing) ∷ (codes "compounddef", missing) ∷ [])

abbrev pub doxygen_type_schema : Schema
doxygen_type_schema = record {
  initial = doxygen_type_initial;
  attributes = text_attribute (codes "version") (codes "version") ∷ [];
  rules = (codes "compounddef", set_object (codes "compounddef") compounddef_type) ∷ [];
  mixed_text = false;
  value_of = false;
}

-- `compounddefType`
abbrev compounddef_type_initial : Fields
compounddef_type_initial = fields (
    (codes "kind", missing)
    ∷ (codes "prot", missing)
    ∷ (codes "id", missing)
    ∷ (codes "compoundname", string [])
    ∷ (codes "title", string [])
    ∷ (codes "basecompoundref", list nil)
    ∷ (codes "derivedcompoundref", list nil)
    ∷ (codes "includes", list nil)
    ∷ (codes "includedby", list nil)
    ∷ (codes "incdepgraph", missing)
    ∷ (codes "invincdepgraph", missing)
    ∷ (codes "innerdir", list nil)
    ∷ (codes "innerfile", list nil)
    ∷ (codes "innerclass", list nil)
    ∷ (codes "innernamespace", list nil)
    ∷ (codes "innerpage", list nil)
    ∷ (codes "innergroup", list nil)
    ∷ (codes "templateparamlist", missing)
    ∷ (codes "sectiondef", list nil)
    ∷ (codes "briefdescription", missing)
    ∷ (codes "detaileddescription", missing)
    ∷ (codes "inheritancegraph", missing)
    ∷ (codes "collaborationgraph", missing)
    ∷ (codes "programlisting", missing)
    ∷ (codes "location", missing)
    ∷ (codes "listofallmembers", missing)
    ∷ [])

abbrev pub compounddef_type_schema : Schema
compounddef_type_schema = record {
  initial = compounddef_type_initial;
  attributes =
      text_attribute (codes "kind") (codes "kind")
      ∷ text_attribute (codes "prot") (codes "prot")
      ∷ text_attribute (codes "id") (codes "id")
      ∷ [];
  rules =
      (codes "compoundname", set_text (codes "compoundname"))
      ∷ (codes "title", set_object (codes "title") doc_title_type)
      ∷ (codes "basecompoundref", append_object (codes "basecompoundref") compound_ref_type)
      ∷ (codes "derivedcompoundref", append_object (codes "derivedcompoundref") compound_ref_type)
      ∷ (codes "includes", append_object (codes "includes") inc_type)
      ∷ (codes "includedby", append_object (codes "includedby") inc_type)
      ∷ (codes "incdepgraph", set_object (codes "incdepgraph") graph_type)
      ∷ (codes "invincdepgraph", set_object (codes "invincdepgraph") graph_type)
      ∷ (codes "innerdir", append_object (codes "innerdir") ref_type)
      ∷ (codes "innerfile", append_object (codes "innerfile") ref_type)
      ∷ (codes "innerclass", append_object (codes "innerclass") ref_type)
      ∷ (codes "innernamespace", append_object (codes "innernamespace") ref_type)
      ∷ (codes "innerpage", append_object (codes "innerpage") ref_type)
      ∷ (codes "innergroup", append_object (codes "innergroup") ref_type)
      ∷ (codes "templateparamlist", set_object (codes "templateparamlist") templateparamlist_type)
      ∷ (codes "sectiondef", append_object (codes "sectiondef") sectiondef_type)
      ∷ (codes "briefdescription", set_object (codes "briefdescription") description_type)
      ∷ (codes "detaileddescription", set_object (codes "detaileddescription") description_type)
      ∷ (codes "inheritancegraph", set_object (codes "inheritancegraph") graph_type)
      ∷ (codes "collaborationgraph", set_object (codes "collaborationgraph") graph_type)
      ∷ (codes "programlisting", set_object (codes "programlisting") listing_type)
      ∷ (codes "location", set_object (codes "location") location_type)
      ∷ (codes "listofallmembers", set_object (codes "listofallmembers") listofallmembers_type)
      ∷ [];
  mixed_text = false;
  value_of = false;
}

-- `listofallmembersType`
abbrev listofallmembers_type_initial : Fields
listofallmembers_type_initial = fields ((codes "member", list nil) ∷ [])

abbrev pub listofallmembers_type_schema : Schema
listofallmembers_type_schema = record {
  initial = listofallmembers_type_initial;
  attributes = [];
  rules = (codes "member", append_object (codes "member") member_ref_type) ∷ [];
  mixed_text = false;
  value_of = false;
}

-- `memberRefType`
abbrev member_ref_type_initial : Fields
member_ref_type_initial = fields (
    (codes "virt", missing)
    ∷ (codes "prot", missing)
    ∷ (codes "refid", missing)
    ∷ (codes "ambiguityscope", missing)
    ∷ (codes "scope", string [])
    ∷ (codes "name", string [])
    ∷ [])

abbrev pub member_ref_type_schema : Schema
member_ref_type_schema = record {
  initial = member_ref_type_initial;
  attributes =
      text_attribute (codes "virt") (codes "virt")
      ∷ text_attribute (codes "prot") (codes "prot")
      ∷ text_attribute (codes "refid") (codes "refid")
      ∷ text_attribute (codes "ambiguityscope") (codes "ambiguityscope")
      ∷ [];
  rules = (codes "scope", set_text (codes "scope")) ∷ (codes "name", set_text (codes "name")) ∷ [];
  mixed_text = false;
  value_of = false;
}

-- `scope`
abbrev scope_class_initial : Fields
scope_class_initial = fields ((codes "valueOf_", string []) ∷ [])

abbrev pub scope_class_schema : Schema
scope_class_schema = record {
  initial = scope_class_initial;
  attributes = [];
  rules = [];
  mixed_text = false;
  value_of = true;
}

-- `name`
abbrev name_class_initial : Fields
name_class_initial = fields ((codes "valueOf_", string []) ∷ [])

abbrev pub name_class_schema : Schema
name_class_schema = record {
  initial = name_class_initial;
  attributes = [];
  rules = [];
  mixed_text = false;
  value_of = true;
}
