-- ===== src/Doxyxml/Compound/Schema/Paragraphs.antt =====
-- The schemas of generated/compoundsuper.py: descriptions: paragraphs and markup.
use aegir_sdr.Common.{true, [], ◌∷◌, codes}
use aegir_sdr.Doxyxml.Compound.Object.{Fields, fields, list, missing, nil}
use aegir_sdr.Doxyxml.Compound.Schema.{Schema, text_attribute}

-- `docTitleType`
abbrev doc_title_type_initial : Fields
doc_title_type_initial = fields ((codes "content_", list nil) ∷ [])

abbrev pub doc_title_type_schema : Schema
doc_title_type_schema = record {
  initial = doc_title_type_initial;
  attributes = [];
  rules = [];
  mixed_text = true;
  value_of = true;
}

-- `docParaType`
abbrev doc_para_type_initial : Fields
doc_para_type_initial = fields ((codes "content_", list nil) ∷ [])

abbrev pub doc_para_type_schema : Schema
doc_para_type_schema = record {
  initial = doc_para_type_initial;
  attributes = [];
  rules = [];
  mixed_text = true;
  value_of = true;
}

-- `docMarkupType`
abbrev doc_markup_type_initial : Fields
doc_markup_type_initial = fields ((codes "content_", list nil) ∷ [])

abbrev pub doc_markup_type_schema : Schema
doc_markup_type_schema = record {
  initial = doc_markup_type_initial;
  attributes = [];
  rules = [];
  mixed_text = true;
  value_of = true;
}

-- `docURLLink`
abbrev doc_url_link_initial : Fields
doc_url_link_initial = fields ((codes "url", missing) ∷ (codes "content_", list nil) ∷ [])

abbrev pub doc_url_link_schema : Schema
doc_url_link_schema = record {
  initial = doc_url_link_initial;
  attributes = text_attribute (codes "url") (codes "url") ∷ [];
  rules = [];
  mixed_text = true;
  value_of = true;
}

-- `docAnchorType`
abbrev doc_anchor_type_initial : Fields
doc_anchor_type_initial = fields ((codes "id", missing) ∷ (codes "content_", list nil) ∷ [])

abbrev pub doc_anchor_type_schema : Schema
doc_anchor_type_schema = record {
  initial = doc_anchor_type_initial;
  attributes = text_attribute (codes "id") (codes "id") ∷ [];
  rules = [];
  mixed_text = true;
  value_of = true;
}

-- `docFormulaType`
abbrev doc_formula_type_initial : Fields
doc_formula_type_initial = fields ((codes "id", missing) ∷ (codes "content_", list nil) ∷ [])

abbrev pub doc_formula_type_schema : Schema
doc_formula_type_schema = record {
  initial = doc_formula_type_initial;
  attributes = text_attribute (codes "id") (codes "id") ∷ [];
  rules = [];
  mixed_text = true;
  value_of = true;
}
