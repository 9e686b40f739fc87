-- ===== src/Doxyxml/Compound/Schemas.antt =====
-- The schema of each class.
use aegir_sdr.Doxyxml.Compound.Classes.{
  ClassName, doxygen_type, compounddef_type, listofallmembers_type, member_ref_type, scope_class,
  name_class, compound_ref_type, reimplement_type, inc_type, ref_type, ref_text_type,
  sectiondef_type, memberdef_type, definition_class, argsstring_class, read_class, write_class,
  bitfield_class, description_type, enumvalue_type, templateparamlist_type, param_type,
  declname_class, defname_class, array_class, linked_text_type, graph_type, node_type, label_class,
  childnode_type, edgelabel_class, link_type, listing_type, codeline_type, highlight_type, sp_class,
  reference_type, location_type, doc_sect1_type, doc_sect2_type, doc_sect3_type, doc_sect4_type,
  doc_internal_type, doc_internal_s1_type, doc_internal_s2_type, doc_internal_s3_type,
  doc_internal_s4_type, doc_title_type, doc_para_type, doc_markup_type, doc_url_link,
  doc_anchor_type, doc_formula_type, doc_index_entry_type, doc_list_type, doc_list_item_type,
  doc_simple_sect_type, doc_var_list_entry_type, doc_variable_list_type, doc_ref_text_type,
  doc_table_type, doc_row_type, doc_entry_type, doc_caption_type, doc_heading_type, doc_image_type,
  doc_dot_file_type, doc_toc_item_type, doc_toc_list_type, doc_language_type, doc_param_list_type,
  doc_param_list_item, doc_param_name_list, doc_param_name, doc_xref_sect_type, doc_copy_type,
  doc_char_type, doc_empty_type,
}
use aegir_sdr.Doxyxml.Compound.Schema.{Schema}
use aegir_sdr.Doxyxml.Compound.Schema.Structure.{
  doxygen_type_schema, compounddef_type_schema, listofallmembers_type_schema,
  member_ref_type_schema, scope_class_schema, name_class_schema,
}
use aegir_sdr.Doxyxml.Compound.Schema.References.{
  compound_ref_type_schema, reimplement_type_schema, inc_type_schema, ref_type_schema,
  ref_text_type_schema, sectiondef_type_schema,
}
use aegir_sdr.Doxyxml.Compound.Schema.Members.{memberdef_type_schema}
use aegir_sdr.Doxyxml.Compound.Schema.MemberParts.{
  definition_class_schema, argsstring_class_schema, read_class_schema, write_class_schema,
  bitfield_class_schema, description_type_schema, enumvalue_type_schema,
  templateparamlist_type_schema, param_type_schema, declname_class_schema, defname_class_schema,
  array_class_schema, linked_text_type_schema,
}
use aegir_sdr.Doxyxml.Compound.Schema.Graphs.{
  graph_type_schema, node_type_schema, label_class_schema, childnode_type_schema,
  edgelabel_class_schema, link_type_schema, listing_type_schema, codeline_type_schema,
  highlight_type_schema, sp_class_schema, reference_type_schema, location_type_schema,
}
use aegir_sdr.Doxyxml.Compound.Schema.Sections.{
  doc_sect1_type_schema, doc_sect2_type_schema, doc_sect3_type_schema, doc_sect4_type_schema,
}
use aegir_sdr.Doxyxml.Compound.Schema.Internals.{
  doc_internal_type_schema, doc_internal_s1_type_schema, doc_internal_s2_type_schema,
  doc_internal_s3_type_schema, doc_internal_s4_type_schema,
}
use aegir_sdr.Doxyxml.Compound.Schema.Paragraphs.{
  doc_title_type_schema, doc_para_type_schema, doc_markup_type_schema, doc_url_link_schema,
  doc_anchor_type_schema, doc_formula_type_schema,
}
use aegir_sdr.Doxyxml.Compound.Schema.Lists.{
  doc_index_entry_type_schema, doc_list_type_schema, doc_list_item_type_schema,
  doc_simple_sect_type_schema, doc_var_list_entry_type_schema, doc_variable_list_type_schema,
  doc_ref_text_type_schema,
}
use aegir_sdr.Doxyxml.Compound.Schema.Tables.{
  doc_table_type_schema, doc_row_type_schema, doc_entry_type_schema, doc_caption_type_schema,
  doc_heading_type_schema, doc_image_type_schema, doc_dot_file_type_schema,
  doc_toc_item_type_schema, doc_toc_list_type_schema,
}
use aegir_sdr.Doxyxml.Compound.Schema.Params.{
  doc_language_type_schema, doc_param_list_type_schema, doc_param_list_item_schema,
  doc_param_name_list_schema, doc_param_name_schema, doc_xref_sect_type_schema,
  doc_copy_type_schema, doc_char_type_schema, doc_empty_type_schema,
}

abbrev pub schema : ClassName → Schema
schema doxygen_type = doxygen_type_schema
schema compounddef_type = compounddef_type_schema
schema listofallmembers_type = listofallmembers_type_schema
schema member_ref_type = member_ref_type_schema
schema scope_class = scope_class_schema
schema name_class = name_class_schema
schema compound_ref_type = compound_ref_type_schema
schema reimplement_type = reimplement_type_schema
schema inc_type = inc_type_schema
schema ref_type = ref_type_schema
schema ref_text_type = ref_text_type_schema
schema sectiondef_type = sectiondef_type_schema
schema memberdef_type = memberdef_type_schema
schema definition_class = definition_class_schema
schema argsstring_class = argsstring_class_schema
schema read_class = read_class_schema
schema write_class = write_class_schema
schema bitfield_class = bitfield_class_schema
schema description_type = description_type_schema
schema enumvalue_type = enumvalue_type_schema
schema templateparamlist_type = templateparamlist_type_schema
schema param_type = param_type_schema
schema declname_class = declname_class_schema
schema defname_class = defname_class_schema
schema array_class = array_class_schema
schema linked_text_type = linked_text_type_schema
schema graph_type = graph_type_schema
schema node_type = node_type_schema
schema label_class = label_class_schema
schema childnode_type = childnode_type_schema
schema edgelabel_class = edgelabel_class_schema
schema link_type = link_type_schema
schema listing_type = listing_type_schema
schema codeline_type = codeline_type_schema
schema highlight_type = highlight_type_schema
schema sp_class = sp_class_schema
schema reference_type = reference_type_schema
schema location_type = location_type_schema
schema doc_sect1_type = doc_sect1_type_schema
schema doc_sect2_type = doc_sect2_type_schema
schema doc_sect3_type = doc_sect3_type_schema
schema doc_sect4_type = doc_sect4_type_schema
schema doc_internal_type = doc_internal_type_schema
schema doc_internal_s1_type = doc_internal_s1_type_schema
schema doc_internal_s2_type = doc_internal_s2_type_schema
schema doc_internal_s3_type = doc_internal_s3_type_schema
schema doc_internal_s4_type = doc_internal_s4_type_schema
schema doc_title_type = doc_title_type_schema
schema doc_para_type = doc_para_type_schema
schema doc_markup_type = doc_markup_type_schema
schema doc_url_link = doc_url_link_schema
schema doc_anchor_type = doc_anchor_type_schema
schema doc_formula_type = doc_formula_type_schema
schema doc_index_entry_type = doc_index_entry_type_schema
schema doc_list_type = doc_list_type_schema
schema doc_list_item_type = doc_list_item_type_schema
schema doc_simple_sect_type = doc_simple_sect_type_schema
schema doc_var_list_entry_type = doc_var_list_entry_type_schema
schema doc_variable_list_type = doc_variable_list_type_schema
schema doc_ref_text_type = doc_ref_text_type_schema
schema doc_table_type = doc_table_type_schema
schema doc_row_type = doc_row_type_schema
schema doc_entry_type = doc_entry_type_schema
schema doc_caption_type = doc_caption_type_schema
schema doc_heading_type = doc_heading_type_schema
schema doc_image_type = doc_image_type_schema
schema doc_dot_file_type = doc_dot_file_type_schema
schema doc_toc_item_type = doc_toc_item_type_schema
schema doc_toc_list_type = doc_toc_list_type_schema
schema doc_language_type = doc_language_type_schema
schema doc_param_list_type = doc_param_list_type_schema
schema doc_param_list_item = doc_param_list_item_schema
schema doc_param_name_list = doc_param_name_list_schema
schema doc_param_name = doc_param_name_schema
schema doc_xref_sect_type = doc_xref_sect_type_schema
schema doc_copy_type = doc_copy_type_schema
schema doc_char_type = doc_char_type_schema
schema doc_empty_type = doc_empty_type_schema
