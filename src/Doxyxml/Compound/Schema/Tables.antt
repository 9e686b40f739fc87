-- ===== src/Doxyxml/Compound/Schema/Tables.antt =====
-- The schemas of generated/compoundsuper.py: descriptions: tables, images and contents.
use aegir_sdr.Common.{true, false, [], ◌∷◌, codes}
use aegir_sdr.Doxyxml.Compound.Classes.{
  doc_caption_type, doc_entry_type, doc_para_type, doc_row_type, doc_toc_item_type,
}
use aegir_sdr.Doxyxml.Compound.Object.{Fields, fields, list, missing, nil}
use aegir_sdr.Doxyxml.Compound.Schema.{
  Schema, append_object, int_attribute, set_object, text_attribute,
}

-- `docTableType`
abbrev doc_table_type_initial : Fields
doc_table_type_initial = fields (
    (codes "rows", missing)
    ∷ (codes "cols", missing)
    ∷ (codes "row", list nil)
    ∷ (codes "caption", missing)
    ∷ [])

abbrev pub doc_table_type_schema : Schema
doc_table_type_schema = record {
  initial = doc_table_type_initial;
  attributes =
      int_attribute (codes "rows") (codes "rows")
      ∷ int_attribute (codes "cols") (codes "cols")
      ∷ [];
  rules =
      (codes "row", append_object (codes "row") doc_row_type)
      ∷ (codes "caption", set_object (codes "caption") doc_caption_type)
      ∷ [];
  mixed_text = false;
  value_of = false;
}

-- `docRowType`
abbrev doc_row_type_initial : Fields
doc_row_type_initial = fields ((codes "entry", list nil) ∷ [])

abbrev pub doc_row_type_schema : Schema
doc_row_type_schema = record {
  initial = doc_row_type_initial;
  attributes = [];
  rules = (codes "entry", append_object (codes "entry") doc_entry_type) ∷ [];
  mixed_text = false;
  value_of = false;
}

-- `docEntryType`
abbrev doc_entry_type_initial : Fields
doc_entry_type_initial = fields ((codes "thead", missing) ∷ (codes "para", list nil) ∷ [])

abbrev pub doc_entry_type_schema : Schema
doc_entry_type_schema = record {
  initial = doc_entry_type_initial;
  attributes = text_attribute (codes "thead") (codes "thead") ∷ [];
  rules = (codes "para", append_object (codes "para") doc_para_type) ∷ [];
  mixed_text = false;
  value_of = false;
}

-- `docCaptionType`
abbrev doc_caption_type_initial : Fields
doc_caption_type_initial = fields ((codes "content_", list nil) ∷ [])

abbrev pub doc_caption_type_schema : Schema
doc_caption_type_schema = record {
  initial = doc_caption_type_initial;
  attributes = [];
  rules = [];
  mixed_text = true;
  value_of = true;
}

-- `docHeadingType`
abbrev doc_heading_type_initial : Fields
doc_heading_type_initial = fields ((codes "level", missing) ∷ (codes "content_", list nil) ∷ [])

abbrev pub doc_heading_type_schema : Schema
doc_heading_type_schema = record {
  initial = doc_heading_type_initial;
  attributes = int_attribute (codes "level") (codes "level") ∷ [];
  rules = [];
  mixed_text = true;
  value_of = true;
}

-- `docImageType`
abbrev doc_image_type_initial : Fields
doc_image_type_initial = fields (
    (codes "width", missing)
    ∷ (codes "type_", missing)
    ∷ (codes "name", missing)
    ∷ (codes "height", missing)
    ∷ (codes "content_", list nil)
    ∷ [])

abbrev pub doc_image_type_schema : Schema
doc_image_type_schema = record {
  initial = doc_image_type_initial;
  attributes =
      text_attribute (codes "width") (codes "width")
      ∷ text_attribute (codes "type") (codes "type_")
      ∷ text_attribute (codes "name") (codes "name")
      ∷ text_attribute (codes "height") (codes "height")
      ∷ [];
  rules = [];
  mixed_text = true;
  value_of = true;
}

-- `docDotFileType`
abbrev doc_dot_file_type_initial : Fields
doc_dot_file_type_initial = fields ((codes "name", missing) ∷ (codes "content_", list nil) ∷ [])

abbrev pub doc_dot_file_type_schema : Schema
doc_dot_file_type_schema = record {
  initial = doc_dot_file_type_initial;
  attributes = text_attribute (codes "name") (codes "name") ∷ [];
  rules = [];
  mixed_text = true;
  value_of = true;
}

-- `docTocItemType`
abbrev doc_toc_item_type_initial : Fields
doc_toc_item_type_initial = fields ((codes "id", missing) ∷ (codes "content_", list nil) ∷ [])

abbrev pub doc_toc_item_type_schema : Schema
doc_toc_item_type_schema = record {
  initial = doc_toc_item_type_initial;
  attributes = text_attribute (codes "id") (codes "id") ∷ [];
  rules = [];
  mixed_text = true;
  value_of = true;
}

-- `docTocListType`
abbrev doc_toc_list_type_initial : Fields
doc_toc_list_type_initial = fields ((codes "tocitem", list nil) ∷ [])

abbrev pub doc_toc_list_type_schema : Schema
doc_toc_list_type_schema = record {
  initial = doc_toc_list_type_initial;
  attributes = [];
  rules = (codes "tocitem", append_object (codes "tocitem") doc_toc_item_type) ∷ [];
  mixed_text = false;
  value_of = false;
}
