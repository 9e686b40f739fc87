-- ===== src/Doxyxml/Compound/Schema/References.antt =====
-- The schemas of generated/compoundsuper.py: references and sections.
use aegir_sdr.Common.{true, false, [], ◌∷◌, codes}
use aegir_sdr.Doxyxml.Compound.Classes.{description_type, memberdef_type}
use aegir_sdr.Doxyxml.Compound.Object.{Fields, fields, list, missing, nil, string}
use aegir_sdr.Doxyxml.Compound.Schema.{Schema, append_object, set_object, set_text, text_attribute}

-- `compoundRefType`
abbrev compound_ref_type_initial : Fields
compound_ref_type_initial = fields (
    (codes "virt", missing)
    ∷ (codes "prot", missing)
    ∷ (codes "refid", missing)
    ∷ (codes "content_", list nil)
    ∷ [])

abbrev pub compound_ref_type_schema : Schema
compound_ref_type_schema = record {
  initial = compound_ref_type_initial;
  attributes =
      text_attribute (codes "virt") (codes "virt")
      ∷ text_attribute (codes "prot") (codes "prot")
      ∷ text_attribute (codes "refid") (codes "refid")
      ∷ [];
  rules = [];
  mixed_text = true;
  value_of = true;
}

-- `reimplementType`
abbrev reimplement_type_initial : Fields
reimplement_type_initial = fields ((codes "refid", missing) ∷ (codes "content_", list nil) ∷ [])

abbrev pub reimplement_type_schema : Schema
reimplement_type_schema = record {
  initial = reimplement_type_initial;
  attributes = text_attribute (codes "refid") (codes "refid") ∷ [];
  rules = [];
  mixed_text = true;
  value_of = true;
}

-- `incType`
abbrev inc_type_initial : Fields
inc_type_initial =
    fields ((codes "local", missing) ∷ (codes "refid", missing) ∷ (codes "content_", list nil) ∷ [])

abbrev pub inc_type_schema : Schema
inc_type_schema = record {
  initial = inc_type_initial;
  attributes =
      text_attribute (codes "local") (codes "local")
      ∷ text_attribute (codes "refid") (codes "refid")
      ∷ [];
  rules = [];
  mixed_text = true;
  value_of = true;
}

-- `refType`
abbrev ref_type_initial : Fields
ref_type_initial =
    fields ((codes "prot", missing) ∷ (codes "refid", missing) ∷ (codes "content_", list nil) ∷ [])

abbrev pub ref_type_schema : Schema
ref_type_schema = record {
  initial = ref_type_initial;
  attributes =
      text_attribute (codes "prot") (codes "prot")
      ∷ text_attribute (codes "refid") (codes "refid")
      ∷ [];
  rules = [];
  mixed_text = true;
  value_of = true;
}

-- `refTextType`
abbrev ref_text_type_initial : Fields
ref_text_type_initial = fields (
    (codes "refid", missing)
    ∷ (codes "kindref", missing)
    ∷ (codes "external", missing)
    ∷ (codes "content_", list nil)
    ∷ [])

abbrev pub ref_text_type_schema : Schema
ref_text_type_schema = record {
  initial = ref_text_type_initial;
  attributes =
      text_attribute (codes "refid") (codes "refid")
      ∷ text_attribute (codes "kindref") (codes "kindref")
      ∷ text_attribute (codes "external") (codes "external")
      ∷ [];
  rules = [];
  mixed_text = true;
  value_of = true;
}

-- `sectiondefType`
abbrev sectiondef_type_initial : Fields
sectiondef_type_initial = fields (
    (codes "kind", missing)
    ∷ (codes "header", string [])
    ∷ (codes "description", missing)
    ∷ (codes "memberdef", list nil)
    ∷ [])

abbrev pub sectiondef_type_schema : Schema
sectiondef_type_schema = record {
  initial = sectiondef_type_initial;
  attributes = text_attribute (codes "kind") (codes "kind") ∷ [];
  rules =
      (codes "header", set_text (codes "header"))
      ∷ (codes "description", set_object (codes "description") description_type)
      ∷ (codes "memberdef", append_object (codes "memberdef") memberdef_type)
      ∷ [];
  mixed_text = false;
  value_of = false;
}
