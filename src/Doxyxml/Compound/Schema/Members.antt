-- ===== src/Doxyxml/Compound/Schema/Members.antt =====
-- The schemas of generated/compoundsuper.py: members.
use aegir_sdr.Common.{false, [], ◌∷◌, codes}
use aegir_sdr.Doxyxml.Compound.Classes.{
  description_type, enumvalue_type, linked_text_type, location_type, param_type, reference_type,
  reimplement_type, templateparamlist_type,
}
use aegir_sdr.Doxyxml.Compound.Object.{Fields, fields, list, missing, nil, string}
use aegir_sdr.Doxyxml.Compound.Schema.{Schema, append_object, set_object, set_text, text_attribute}

-- `memberdefType`
abbrev memberdef_type_initial : Fields
memberdef_type_initial = fields (
    (codes "initonly", missing)
    ∷ (codes "kind", missing)
    ∷ (codes "volatile", missing)
    ∷ (codes "const", missing)
    ∷ (codes "raisexx", missing)
    ∷ (codes "virt", missing)
    ∷ (codes "readable", missing)
    ∷ (codes "prot", missing)
    ∷ (codes "explicit", missing)
    ∷ (codes "new", missing)
    ∷ (codes "final", missing)
    ∷ (codes "writable", missing)
    ∷ (codes "add", missing)
    ∷ (codes "static", missing)
    ∷ (codes "remove", missing)
    ∷ (codes "sealed", missing)
    ∷ (codes "mutable", missing)
    ∷ (codes "gettable", missing)
    ∷ (codes "inline", missing)
    ∷ (codes "settable", missing)
    ∷ (codes "id", missing)
    ∷ (codes "templateparamlist", missing)
    ∷ (codes "type_", missing)
    ∷ (codes "definition", string [])
    ∷ (codes "argsstring", string [])
    ∷ (codes "name", string [])
    ∷ (codes "read", string [])
    ∷ (codes "write", string [])
    ∷ (codes "bitfield", string [])
    ∷ (codes "reimplements", list nil)
    ∷ (codes "reimplementedby", list nil)
    ∷ (codes "param", list nil)
    ∷ (codes "enumvalue", list nil)
    ∷ (codes "initializer", missing)
    ∷ (codes "exceptions", missing)
    ∷ (codes "briefdescription", missing)
    ∷ (codes "detaileddescription", missing)
    ∷ (codes "inbodydescription", missing)
    ∷ (codes "location", missing)
    ∷ (codes "references", list nil)
    ∷ (codes "referencedby", list nil)
    ∷ [])

abbrev pub memberdef_type_schema : Schema
memberdef_type_schema = record {
  initial = memberdef_type_initial;
  attributes =
      text_attribute (codes "initonly") (codes "initonly")
      ∷ text_attribute (codes "kind") (codes "kind")
      ∷ text_attribute (codes "volatile") (codes "volatile")
      ∷ text_attribute (codes "const") (codes "const")
      ∷ text_attribute (codes "raise") (codes "raisexx")
      ∷ text_attribute (codes "virt") (codes "virt")
      ∷ text_attribute (codes "readable") (codes "readable")
      ∷ text_attribute (codes "prot") (codes "prot")
      ∷ text_attribute (codes "explicit") (codes "explicit")
      ∷ text_attribute (codes "new") (codes "new")
      ∷ text_attribute (codes "final") (codes "final")
      ∷ text_attribute (codes "writable") (codes "writable")
      ∷ text_attribute (codes "add") (codes "add")
      ∷ text_attribute (codes "static") (codes "static")
      ∷ text_attribute (codes "remove") (codes "remove")
      ∷ text_attribute (codes "sealed") (codes "sealed")
      ∷ text_attribute (codes "mutable") (codes "mutable")
      ∷ text_attribute (codes "gettable") (codes "gettable")
      ∷ text_attribute (codes "inline") (codes "inline")
      ∷ text_attribute (codes "settable") (codes "settable")
      ∷ text_attribute (codes "id") (codes "id")
      ∷ [];
  rules =
      (codes "templateparamlist", set_object (codes "templateparamlist") templateparamlist_type)
      ∷ (codes "type", set_object (codes "type_") linked_text_type)
      ∷ (codes "definition", set_text (codes "definition"))
      ∷ (codes "argsstring", set_text (codes "argsstring"))
      ∷ (codes "name", set_text (codes "name"))
      ∷ (codes "read", set_text (codes "read"))
      ∷ (codes "write", set_text (codes "write"))
      ∷ (codes "bitfield", set_text (codes "bitfield"))
      ∷ (codes "reimplements", append_object (codes "reimplements") reimplement_type)
      ∷ (codes "reimplementedby", append_object (codes "reimplementedby") reimplement_type)
      ∷ (codes "param", append_object (codes "param") param_type)
      ∷ (codes "enumvalue", append_object (codes "enumvalue") enumvalue_type)
      ∷ (codes "initializer", set_object (codes "initializer") linked_text_type)
      ∷ (codes "exceptions", set_object (codes "exceptions") linked_text_type)
      ∷ (codes "briefdescription", set_object (codes "briefdescription") description_type)
      ∷ (codes "detaileddescription", set_object (codes "detaileddescription") description_type)
      ∷ (codes "inbodydescription", set_object (codes "inbodydescription") description_type)
      ∷ (codes "location", set_object (codes "location") location_type)
      ∷ (codes "references", append_object (codes "references") reference_type)
      ∷ (codes "referencedby", append_object (codes "referencedby") reference_type)
      ∷ [];
  mixed_text = false;
  value_of = false;
}
