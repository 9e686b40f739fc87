-- ===== src/Doxyxml/Compound/Schema/Internals.antt =====
-- The schemas of generated/compoundsuper.py: descriptions: internal parts.
use aegir_sdr.Common.{true, false, [], ◌∷◌, codes}
use aegir_sdr.Doxyxml.Compound.Classes.{
  doc_para_type, doc_sect1_type, doc_sect2_type, doc_sect3_type, doc_sect4_type,
}
use aegir_sdr.Doxyxml.Compound.Object.{Fields, fields, list, nil}
use aegir_sdr.Doxyxml.Compound.Schema.{Schema, mixed_object}

-- `docInternalType`
abbrev doc_internal_type_initial : Fields
doc_internal_type_initial = fields ((codes "content_", list nil) ∷ [])

abbrev pub doc_internal_type_schema : Schema
doc_internal_type_schema = record {
  initial = doc_internal_type_initial;
  attributes = [];
  rules =
      (codes "para", mixed_object doc_para_type)
      ∷ (codes "sect1", mixed_object doc_sect1_type)
      ∷ [];
  mixed_text = true;
  value_of = false;
}

-- `docInternalS1Type`
abbrev doc_internal_s1_type_initial : Fields
doc_internal_s1_type_initial = fields ((codes "content_", list nil) ∷ [])

abbrev pub doc_internal_s1_type_schema : Schema
doc_internal_s1_type_schema = record {
  initial = doc_internal_s1_type_initial;
  attributes = [];
  rules =
      (codes "para", mixed_object doc_para_type)
      ∷ (codes "sect2", mixed_object doc_sect2_type)
      ∷ [];
  mixed_text = true;
  value_of = false;
}

-- `docInternalS2Type`
abbrev doc_internal_s2_type_initial : Fields
doc_internal_s2_type_initial = fields ((codes "content_", list nil) ∷ [])

abbrev pub doc_internal_s2_type_schema : Schema
doc_internal_s2_type_schema = record {
  initial = doc_internal_s2_type_initial;
  attributes = [];
  rules =
      (codes "para", mixed_object doc_para_type)
      ∷ (codes "sect3", mixed_object doc_sect3_type)
      ∷ [];
  mixed_text = true;
  value_of = false;
}

-- `docInternalS3Type`
abbrev doc_internal_s3_type_initial : Fields
doc_internal_s3_type_initial = fields ((codes "content_", list nil) ∷ [])

abbrev pub doc_internal_s3_type_schema : Schema
doc_internal_s3_type_schema = record {
  initial = doc_internal_s3_type_initial;
  attributes = [];
  rules =
      (codes "para", mixed_object doc_para_type)
      ∷ (codes "sect3", mixed_object doc_sect4_type)
      ∷ [];
  mixed_text = true;
  value_of = false;
}

-- `docInternalS4Type`
abbrev doc_internal_s4_type_initial : Fields
doc_internal_s4_type_initial = fields ((codes "content_", list nil) ∷ [])

abbrev pub doc_internal_s4_type_schema : Schema
doc_internal_s4_type_schema = record {
  initial = doc_internal_s4_type_initial;
  attributes = [];
  rules = (codes "para", mixed_object doc_para_type) ∷ [];
  mixed_text = true;
  value_of = false;
}
