-- ===== src/Doxyxml/Compound/Schema/Graphs.antt =====
-- The schemas of generated/compoundsuper.py: graphs, listings, references and locations.
use aegir_sdr.Common.{true, false, [], ◌∷◌, codes}
use aegir_sdr.Doxyxml.Compound.Classes.{
  childnode_type, codeline_type, doc_ref_text_type, highlight_type, link_type, node_type,
}
use aegir_sdr.Doxyxml.Compound.Object.{Fields, fields, list, missing, nil, string}
use aegir_sdr.Doxyxml.Compound.Schema.{
  Schema, append_object, append_text, int_attribute, mixed_object, mixed_simple, set_object,
  set_text, text_attribute,
}

-- `graphType`
abbrev graph_type_initial : Fields
graph_type_initial = fields ((codes "node", list nil) ∷ [])

abbrev pub graph_type_schema : Schema
graph_type_schema = record {
  initial = graph_type_initial;
  attributes = [];
  rules = (codes "node", append_object (codes "node") node_type) ∷ [];
  mixed_text = false;
  value_of = false;
}

-- `nodeType`
abbrev node_type_initial : Fields
node_type_initial = fields (
    (codes "id", missing)
    ∷ (codes "label", string [])
    ∷ (codes "link", missing)
    ∷ (codes "childnode", list nil)
    ∷ [])

abbrev pub node_type_schema : Schema
node_type_schema = record {
  initial = node_type_initial;
  attributes = text_attribute (codes "id") (codes "id") ∷ [];
  rules =
      (codes "label", set_text (codes "label"))
      ∷ (codes "link", set_object (codes "link") link_type)
      ∷ (codes "childnode", append_object (codes "childnode") childnode_type)
      ∷ [];
  mixed_text = false;
  value_of = false;
}

-- `label`
abbrev label_class_initial : Fields
label_class_initial = fields ((codes "valueOf_", string []) ∷ [])

abbrev pub label_class_schema : Schema
label_class_schema = record {
  initial = label_class_initial;
  attributes = [];
  rules = [];
  mixed_text = false;
  value_of = true;
}

-- `childnodeType`
abbrev childnode_type_initial : Fields
childnode_type_initial =
    fields
      ((codes "relation", missing) ∷ (codes "refid", missing) ∷ (codes "edgelabel", list nil) ∷ [])

abbrev pub childnode_type_schema : Schema
childnode_type_schema = record {
  initial = childnode_type_initial;
  attributes =
      text_attribute (codes "relation") (codes "relation")
      ∷ text_attribute (codes "refid") (codes "refid")
      ∷ [];
  rules = (codes "edgelabel", append_text (codes "edgelabel")) ∷ [];
  mixed_text = false;
  value_of = false;
}

-- `edgelabel`
abbrev edgelabel_class_initial : Fields
edgelabel_class_initial = fields ((codes "valueOf_", string []) ∷ [])

abbrev pub edgelabel_class_schema : Schema
edgelabel_class_schema = record {
  initial = edgelabel_class_initial;
  attributes = [];
  rules = [];
  mixed_text = false;
  value_of = true;
}

-- `linkType`
abbrev link_type_initial : Fields
link_type_initial =
    fields
      ((codes "refid", missing) ∷ (codes "external", missing) ∷ (codes "valueOf_", string []) ∷ [])

abbrev pub link_type_schema : Schema
link_type_schema = record {
  initial = link_type_initial;
  attributes =
      text_attribute (codes "refid") (codes "refid")
      ∷ text_attribute (codes "external") (codes "external")
      ∷ [];
  rules = [];
  mixed_text = false;
  value_of = true;
}

-- `listingType`
abbrev listing_type_initial : Fields
listing_type_initial = fields ((codes "codeline", list nil) ∷ [])

abbrev pub listing_type_schema : Schema
listing_type_schema = record {
  initial = listing_type_initial;
  attributes = [];
  rules = (codes "codeline", append_object (codes "codeline") codeline_type) ∷ [];
  mixed_text = false;
  value_of = false;
}

-- `codelineType`
abbrev codeline_type_initial : Fields
codeline_type_initial = fields (
    (codes "external", missing)
    ∷ (codes "lineno", missing)
    ∷ (codes "refkind", missing)
    ∷ (codes "refid", missing)
    ∷ (codes "highlight", list nil)
    ∷ [])

abbrev pub codeline_type_schema : Schema
codeline_type_schema = record {
  initial = codeline_type_initial;
  attributes =
      text_attribute (codes "external") (codes "external")
      ∷ int_attribute (codes "lineno") (codes "lineno")
      ∷ text_attribute (codes "refkind") (codes "refkind")
      ∷ text_attribute (codes "refid") (codes "refid")
      ∷ [];
  rules = (codes "highlight", append_object (codes "highlight") highlight_type) ∷ [];
  mixed_text = false;
  value_of = false;
}

-- `highlightType`
abbrev highlight_type_initial : Fields
highlight_type_initial = fields ((codes "classxx", missing) ∷ (codes "content_", list nil) ∷ [])

abbrev pub highlight_type_schema : Schema
highlight_type_schema = record {
  initial = highlight_type_initial;
  attributes = text_attribute (codes "class") (codes "classxx") ∷ [];
  rules = (codes "sp", mixed_simple) ∷ (codes "ref", mixed_object doc_ref_text_type) ∷ [];
  mixed_text = true;
  value_of = false;
}

-- `sp`
abbrev sp_class_initial : Fields
sp_class_initial = fields ((codes "valueOf_", string []) ∷ [])

abbrev pub sp_class_schema : Schema
sp_class_schema = record {
  initial = sp_class_initial;
  attributes = [];
  rules = [];
  mixed_text = false;
  value_of = true;
}

-- `referenceType`
abbrev reference_type_initial : Fields
reference_type_initial = fields (
    (codes "endline", missing)
    ∷ (codes "startline", missing)
    ∷ (codes "refid", missing)
    ∷ (codes "compoundref", missing)
    ∷ (codes "content_", list nil)
    ∷ [])

abbrev pub reference_type_schema : Schema
reference_type_schema = record {
  initial = reference_type_initial;
  attributes =
      int_attribute (codes "endline") (codes "endline")
      ∷ int_attribute (codes "startline") (codes "startline")
      ∷ text_attribute (codes "refid") (codes "refid")
      ∷ text_attribute (codes "compoundref") (codes "compoundref")
      ∷ [];
  rules = [];
  mixed_text = true;
  value_of = true;
}

-- `locationType`
abbrev location_type_initial : Fields
location_type_initial = fields (
    (codes "bodystart", missing)
    ∷ (codes "line", missing)
    ∷ (codes "bodyend", missing)
    ∷ (codes "bodyfile", missing)
    ∷ (codes "file", missing)
    ∷ (codes "valueOf_", string [])
    ∷ [])

abbrev pub location_type_schema : Schema
location_type_schema = record {
  initial = location_type_initial;
  attributes =
      int_attribute (codes "bodystart") (codes "bodystart")
      ∷ int_attribute (codes "line") (codes "line")
      ∷ int_attribute (codes "bodyend") (codes "bodyend")
      ∷ text_attribute (codes "bodyfile") (codes "bodyfile")
      ∷ text_attribute (codes "file") (codes "file")
      ∷ [];
  rules = [];
  mixed_text = false;
  value_of = true;
}
