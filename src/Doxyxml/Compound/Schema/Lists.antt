-- ===== src/Doxyxml/Compound/Schema/Lists.antt =====
-- The schemas of generated/compoundsuper.py: descriptions: lists and references.
use aegir_sdr.Common.{true, false, [], ◌∷◌, codes}
use aegir_sdr.Doxyxml.Compound.Classes.{doc_list_item_type, doc_para_type, doc_title_type}
use aegir_sdr.Doxyxml.Compound.Object.{Fields, fields, list, missing, nil, string}
use aegir_sdr.Doxyxml.Compound.Schema.{Schema, append_object, set_object, set_text, text_attribute}

-- `docIndexEntryType`
abbrev doc_index_entry_type_initial : Fields
doc_index_entry_type_initial =
    fields ((codes "primaryie", string []) ∷ (codes "secondaryie", string []) ∷ [])

abbrev pub doc_index_entry_type_schema : Schema
doc_index_entry_type_schema = record {
  initial = doc_index_entry_type_initial;
  attributes = [];
  rules =
      (codes "primaryie", set_text (codes "primaryie"))
      ∷ (codes "secondaryie", set_text (codes "secondaryie"))
      ∷ [];
  mixed_text = false;
  value_of = false;
}

-- `docListType`
abbrev doc_list_type_initial : Fields
doc_list_type_initial = fields ((codes "listitem", list nil) ∷ [])

abbrev pub doc_list_type_schema : Schema
doc_list_type_schema = record {
  initial = doc_list_type_initial;
  attributes = [];
  rules = (codes "listitem", append_object (codes "listitem") doc_list_item_type) ∷ [];
  mixed_text = false;
  value_of = false;
}

-- `docListItemType`
abbrev doc_list_item_type_initial : Fields
doc_list_item_type_initial = fields ((codes "para", list nil) ∷ [])

abbrev pub doc_list_item_type_schema : Schema
doc_list_item_type_schema = record {
  initial = doc_list_item_type_initial;
  attributes = [];
  rules = (codes "para", append_object (codes "para") doc_para_type) ∷ [];
  mixed_text = false;
  value_of = false;
}

-- `docSimpleSectType`
abbrev doc_simple_sect_type_initial : Fields
doc_simple_sect_type_initial =
    fields ((codes "kind", missing) ∷ (codes "title", missing) ∷ (codes "para", list nil) ∷ [])

abbrev pub doc_simple_sect_type_schema : Schema
doc_simple_sect_type_schema = record {
  initial = doc_simple_sect_type_initial;
  attributes = text_attribute (codes "kind") (codes "kind") ∷ [];
  rules =
      (codes "title", set_object (codes "title") doc_title_type)
      ∷ (codes "para", append_object (codes "para") doc_para_type)
      ∷ [];
  mixed_text = false;
  value_of = false;
}

-- `docVarListEntryType`
abbrev doc_var_list_entry_type_initial : Fields
doc_var_list_entry_type_initial = fields ((codes "term", missing) ∷ [])

abbrev pub doc_var_list_entry_type_schema : Schema
doc_var_list_entry_type_schema = record {
  initial = doc_var_list_entry_type_initial;
  attributes = [];
  rules = (codes "term", set_object (codes "term") doc_title_type) ∷ [];
  mixed_text = false;
  value_of = false;
}

-- `docVariableListType`
abbrev doc_variable_list_type_initial : Fields
doc_variable_list_type_initial = fields ((codes "valueOf_", string []) ∷ [])

abbrev pub doc_variable_list_type_schema : Schema
doc_variable_list_type_schema = record {
  initial = doc_variable_list_type_initial;
  attributes = [];
  rules = [];
  mixed_text = false;
  value_of = true;
}

-- `docRefTextType`
abbrev doc_ref_text_type_initial : Fields
doc_ref_text_type_initial = fields (
    (codes "refid", missing)
    ∷ (codes "kindref", missing)
    ∷ (codes "external", missing)
    ∷ (codes "content_", list nil)
    ∷ [])

abbrev pub doc_ref_text_type_schema : Schema
doc_ref_text_type_schema = record {
  initial = doc_ref_text_type_initial;
  attributes =
      text_attribute (codes "refid") (codes "refid")
      ∷ text_attribute (codes "kindref") (codes "kindref")
      ∷ text_attribute (codes "external") (codes "external")
      ∷ [];
  rules = [];
  mixed_text = true;
  value_of = true;
}
