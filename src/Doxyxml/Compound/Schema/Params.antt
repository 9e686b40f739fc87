-- ===== src/Doxyxml/Compound/Schema/Params.antt =====
-- The schemas of generated/compoundsuper.py: descriptions: parameters and the rest.
use aegir_sdr.Common.{true, false, [], ◌∷◌, codes}
use aegir_sdr.Doxyxml.Compound.Classes.{
  description_type, doc_internal_type, doc_para_type, doc_param_list_item, doc_param_name,
  doc_param_name_list, doc_ref_text_type, doc_sect1_type,
}
use aegir_sdr.Doxyxml.Compound.Object.{Fields, fields, list, missing, nil, string}
use aegir_sdr.Doxyxml.Compound.Schema.{
  Schema, append_object, append_text, mixed_object, set_object, text_attribute,
}

-- `docLanguageType`
abbrev doc_language_type_initial : Fields
doc_language_type_initial = fields ((codes "langid", missing) ∷ (codes "para", list nil) ∷ [])

abbrev pub doc_language_type_schema : Schema
doc_language_type_schema = record {
  initial = doc_language_type_initial;
  attributes = text_attribute (codes "langid") (codes "langid") ∷ [];
  rules = (codes "para", append_object (codes "para") doc_para_type) ∷ [];
  mixed_text = false;
  value_of = false;
}

-- `docParamListType`
abbrev doc_param_list_type_initial : Fields
doc_param_list_type_initial =
    fields ((codes "kind", missing) ∷ (codes "parameteritem", list nil) ∷ [])

abbrev pub doc_param_list_type_schema : Schema
doc_param_list_type_schema = record {
  initial = doc_param_list_type_initial;
  attributes = text_attribute (codes "kind") (codes "kind") ∷ [];
  rules = (codes "parameteritem", append_object (codes "parameteritem") doc_param_list_item) ∷ [];
  mixed_text = false;
  value_of = false;
}

-- `docParamListItem`
abbrev doc_param_list_item_initial : Fields
doc_param_list_item_initial =
    fields ((codes "parameternamelist", list nil) ∷ (codes "parameterdescription", missing) ∷ [])

abbrev pub doc_param_list_item_schema : Schema
doc_param_list_item_schema = record {
  initial = doc_param_list_item_initial;
  attributes = [];
  rules =
      (codes "parameternamelist", append_object (codes "parameternamelist") doc_param_name_list)
      ∷ (codes "parameterdescription", set_object (codes "parameterdescription") description_type)
      ∷ [];
  mixed_text = false;
  value_of = false;
}

-- `docParamNameList`
abbrev doc_param_name_list_initial : Fields
doc_param_name_list_initial = fields ((codes "parametername", list nil) ∷ [])

abbrev pub doc_param_name_list_schema : Schema
doc_param_name_list_schema = record {
  initial = doc_param_name_list_initial;
  attributes = [];
  rules = (codes "parametername", append_object (codes "parametername") doc_param_name) ∷ [];
  mixed_text = false;
  value_of = false;
}

-- `docParamName`
abbrev doc_param_name_initial : Fields
doc_param_name_initial = fields ((codes "direction", missing) ∷ (codes "content_", list nil) ∷ [])

abbrev pub doc_param_name_schema : Schema
doc_param_name_schema = record {
  initial = doc_param_name_initial;
  attributes = text_attribute (codes "direction") (codes "direction") ∷ [];
  rules = (codes "ref", mixed_object doc_ref_text_type) ∷ [];
  mixed_text = true;
  value_of = false;
}

-- `docXRefSectType`
abbrev doc_xref_sect_type_initial : Fields
doc_xref_sect_type_initial = fields (
    (codes "id", missing) ∷ (codes "xreftitle", list nil) ∷ (codes "xrefdescription", missing) ∷ [])

abbrev pub doc_xref_sect_type_schema : Schema
doc_xref_sect_type_schema = record {
  initial = doc_xref_sect_type_initial;
  attributes = text_attribute (codes "id") (codes "id") ∷ [];
  rules =
      (codes "xreftitle", append_text (codes "xreftitle"))
      ∷ (codes "xrefdescription", set_object (codes "xrefdescription") description_type)
      ∷ [];
  mixed_text = false;
  value_of = false;
}

-- `docCopyType`
abbrev doc_copy_type_initial : Fields
doc_copy_type_initial = fields (
    (codes "link", missing)
    ∷ (codes "para", list nil)
    ∷ (codes "sect1", list nil)
    ∷ (codes "internal", missing)
    ∷ [])

abbrev pub doc_copy_type_schema : Schema
doc_copy_type_schema = record {
  initial = doc_copy_type_initial;
  attributes = text_attribute (codes "link") (codes "link") ∷ [];
  rules =
      (codes "para", append_object (codes "para") doc_para_type)
      ∷ (codes "sect1", append_object (codes "sect1") doc_sect1_type)
      ∷ (codes "internal", set_object (codes "internal") doc_internal_type)
      ∷ [];
  mixed_text = false;
  value_of = false;
}

-- `docCharType`
abbrev doc_char_type_initial : Fields
doc_char_type_initial = fields ((codes "char", missing) ∷ (codes "valueOf_", string []) ∷ [])

abbrev pub doc_char_type_schema : Schema
doc_char_type_schema = record {
  initial = doc_char_type_initial;
  attributes = text_attribute (codes "char") (codes "char") ∷ [];
  rules = [];
  mixed_text = false;
  value_of = true;
}

-- `docEmptyType`
abbrev doc_empty_type_initial : Fields
doc_empty_type_initial = fields ((codes "valueOf_", string []) ∷ [])

abbrev pub doc_empty_type_schema : Schema
doc_empty_type_schema = record {
  initial = doc_empty_type_initial;
  attributes = [];
  rules = [];
  mixed_text = false;
  value_of = true;
}
