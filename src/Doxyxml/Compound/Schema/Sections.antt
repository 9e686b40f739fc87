-- ===== src/Doxyxml/Compound/Schema/Sections.antt =====
-- The schemas of generated/compoundsuper.py: descriptions: sections.
use aegir_sdr.Common.{true, false, [], ◌∷◌, codes}
use aegir_sdr.Doxyxml.Compound.Classes.{
  doc_internal_s1_type, doc_internal_s2_type, doc_internal_s3_type, doc_internal_s4_type,
  doc_para_type, doc_sect2_type, doc_sect3_type, doc_sect4_type, doc_title_type,
}
use aegir_sdr.Doxyxml.Compound.Object.{Fields, fields, list, missing, nil}
use aegir_sdr.Doxyxml.Compound.Schema.{Schema, mixed_object, text_attribute}

-- `docSect1Type`
abbrev doc_sect1_type_initial : Fields
doc_sect1_type_initial = fields ((codes "id", missing) ∷ (codes "content_", list nil) ∷ [])

abbrev pub doc_sect1_type_schema : Schema
doc_sect1_type_schema = record {
  initial = doc_sect1_type_initial;
  attributes = text_attribute (codes "id") (codes "id") ∷ [];
  rules =
      (codes "title", mixed_object doc_title_type)
      ∷ (codes "para", mixed_object doc_para_type)
      ∷ (codes "sect2", mixed_object doc_sect2_type)
      ∷ (codes "internal", mixed_object doc_internal_s1_type)
      ∷ [];
  mixed_text = true;
  value_of = false;
}

-- `docSect2Type`
abbrev doc_sect2_type_initial : Fields
doc_sect2_type_initial = fields ((codes "id", missing) ∷ (codes "content_", list nil) ∷ [])

abbrev pub doc_sect2_type_schema : Schema
doc_sect2_type_schema = record {
  initial = doc_sect2_type_initial;
  attributes = text_attribute (codes "id") (codes "id") ∷ [];
  rules =
      (codes "title", mixed_object doc_title_type)
      ∷ (codes "para", mixed_object doc_para_type)
      ∷ (codes "sect3", mixed_object doc_sect3_type)
      ∷ (codes "internal", mixed_object doc_internal_s2_type)
      ∷ [];
  mixed_text = true;
  value_of = false;
}

-- `docSect3Type`
abbrev doc_sect3_type_initial : Fields
doc_sect3_type_initial = fields ((codes "id", missing) ∷ (codes "content_", list nil) ∷ [])

abbrev pub doc_sect3_type_schema : Schema
doc_sect3_type_schema = record {
  initial = doc_sect3_type_initial;
  attributes = text_attribute (codes "id") (codes "id") ∷ [];
  rules =
      (codes "title", mixed_object doc_title_type)
      ∷ (codes "para", mixed_object doc_para_type)
      ∷ (codes "sect4", mixed_object doc_sect4_type)
      ∷ (codes "internal", mixed_object doc_internal_s3_type)
      ∷ [];
  mixed_text = true;
  value_of = false;
}

-- `docSect4Type`
abbrev doc_sect4_type_initial : Fields
doc_sect4_type_initial = fields ((codes "id", missing) ∷ (codes "content_", list nil) ∷ [])

abbrev pub doc_sect4_type_schema : Schema
doc_sect4_type_schema = record {
  initial = doc_sect4_type_initial;
  attributes = text_attribute (codes "id") (codes "id") ∷ [];
  rules =
      (codes "title", mixed_object doc_title_type)
      ∷ (codes "para", mixed_object doc_para_type)
      ∷ (codes "internal", mixed_object doc_internal_s4_type)
      ∷ [];
  mixed_text = true;
  value_of = false;
}
