-- ===== src/Doxyxml/Compound/Schema/MemberParts.antt =====
-- The schemas of generated/compoundsuper.py: what members hold.
use aegir_sdr.Common.{true, false, [], ◌∷◌, codes}
use aegir_sdr.Doxyxml.Compound.Classes.{
  description_type, doc_internal_type, doc_para_type, doc_ref_text_type, doc_sect1_type,
  doc_title_type, linked_text_type, param_type,
}
use aegir_sdr.Doxyxml.Compound.Object.{Fields, fields, list, missing, nil, string}
use aegir_sdr.Doxyxml.Compound.Schema.{
  Schema, append_object, mixed_object, mixed_simple, set_object, set_text, text_attribute,
}

-- `definition`
abbrev definition_class_initial : Fields
definition_class_initial = fields ((codes "valueOf_", string []) ∷ [])

abbrev pub definition_class_schema : Schema
definition_class_schema = record {
  initial = definition_class_initial;
  attributes = [];
  rules = [];
  mixed_text = false;
  value_of = true;
}

-- `argsstring`
abbrev argsstring_class_initial : Fields
argsstring_class_initial = fields ((codes "valueOf_", string []) ∷ [])

abbrev pub argsstring_class_schema : Schema
argsstring_class_schema = record {
  initial = argsstring_class_initial;
  attributes = [];
  rules = [];
  mixed_text = false;
  value_of = true;
}

-- `read`
abbrev read_class_initial : Fields
read_class_initial = fields ((codes "valueOf_", string []) ∷ [])

abbrev pub read_class_schema : Schema
read_class_schema = record {
  initial = read_class_initial;
  attributes = [];
  rules = [];
  mixed_text = false;
  value_of = true;
}

-- `write`
abbrev write_class_initial : Fields
write_class_initial = fields ((codes "valueOf_", string []) ∷ [])

abbrev pub write_class_schema : Schema
write_class_schema = record {
  initial = write_class_initial;
  attributes = [];
  rules = [];
  mixed_text = false;
  value_of = true;
}

-- `bitfield`
abbrev bitfield_class_initial : Fields
bitfield_class_initial = fields ((codes "valueOf_", string []) ∷ [])

abbrev pub bitfield_class_schema : Schema
bitfield_class_schema = record {
  initial = bitfield_class_initial;
  attributes = [];
  rules = [];
  mixed_text = false;
  value_of = true;
}

-- `descriptionType`
abbrev description_type_initial : Fields
description_type_initial = fields ((codes "content_", list nil) ∷ [])

abbrev pub description_type_schema : Schema
description_type_schema = record {
  initial = description_type_initial;
  attributes = [];
  rules =
      (codes "title", mixed_object doc_title_type)
      ∷ (codes "para", mixed_object doc_para_type)
      ∷ (codes "sect1", mixed_object doc_sect1_type)
      ∷ (codes "internal", mixed_object doc_internal_type)
      ∷ [];
  mixed_text = true;
  value_of = false;
}

-- `enumvalueType`
abbrev enumvalue_type_initial : Fields
enumvalue_type_initial =
    fields ((codes "prot", missing) ∷ (codes "id", missing) ∷ (codes "content_", list nil) ∷ [])

abbrev pub enumvalue_type_schema : Schema
enumvalue_type_schema = record {
  initial = enumvalue_type_initial;
  attributes =
      text_attribute (codes "prot") (codes "prot") ∷ text_attribute (codes "id") (codes "id") ∷ [];
  rules =
      (codes "name", mixed_simple)
      ∷ (codes "initializer", mixed_object linked_text_type)
      ∷ (codes "briefdescription", mixed_object description_type)
      ∷ (codes "detaileddescription", mixed_object description_type)
      ∷ [];
  mixed_text = true;
  value_of = false;
}

-- `templateparamlistType`
abbrev templateparamlist_type_initial : Fields
templateparamlist_type_initial = fields ((codes "param", list nil) ∷ [])

abbrev pub templateparamlist_type_schema : Schema
templateparamlist_type_schema = record {
  initial = templateparamlist_type_initial;
  attributes = [];
  rules = (codes "param", append_object (codes "param") param_type) ∷ [];
  mixed_text = false;
  value_of = false;
}

-- `paramType`
abbrev param_type_initial : Fields
param_type_initial = fields (
    (codes "type_", missing)
    ∷ (codes "declname", string [])
    ∷ (codes "defname", string [])
    ∷ (codes "array", string [])
    ∷ (codes "defval", missing)
    ∷ (codes "briefdescription", missing)
    ∷ [])

abbrev pub param_type_schema : Schema
param_type_schema = record {
  initial = param_type_initial;
  attributes = [];
  rules =
      (codes "type", set_object (codes "type_") linked_text_type)
      ∷ (codes "declname", set_text (codes "declname"))
      ∷ (codes "defname", set_text (codes "defname"))
      ∷ (codes "array", set_text (codes "array"))
      ∷ (codes "defval", set_object (codes "defval") linked_text_type)
      ∷ (codes "briefdescription", set_object (codes "briefdescription") description_type)
      ∷ [];
  mixed_text = false;
  value_of = false;
}

-- `declname`
abbrev declname_class_initial : Fields
declname_class_initial = fields ((codes "valueOf_", string []) ∷ [])

abbrev pub declname_class_schema : Schema
declname_class_schema = record {
  initial = declname_class_initial;
  attributes = [];
  rules = [];
  mixed_text = false;
  value_of = true;
}

-- `defname`
abbrev defname_class_initial : Fields
defname_class_initial = fields ((codes "valueOf_", string []) ∷ [])

abbrev pub defname_class_schema : Schema
defname_class_schema = record {
  initial = defname_class_initial;
  attributes = [];
  rules = [];
  mixed_text = false;
  value_of = true;
}

-- `array`
abbrev array_class_initial : Fields
array_class_initial = fields ((codes "valueOf_", string []) ∷ [])

abbrev pub array_class_schema : Schema
array_class_schema = record {
  initial = array_class_initial;
  attributes = [];
  rules = [];
  mixed_text = false;
  value_of = true;
}

-- `linkedTextType`
abbrev linked_text_type_initial : Fields
linked_text_type_initial = fields ((codes "content_", list nil) ∷ [])

abbrev pub linked_text_type_schema : Schema
linked_text_type_schema = record {
  initial = linked_text_type_initial;
  attributes = [];
  rules = (codes "ref", mixed_object doc_ref_text_type) ∷ [];
  mixed_text = true;
  value_of = false;
}
