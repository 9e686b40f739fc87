-- ===== src/Doxyxml/Compound/Total/Schemas.antt =====
-- Every class keeps the laws.
use aegir_sdr.Common.{refl, eq_text}
use aegir_sdr.Doxyxml.Compound.Classes.{
  ClassName, doxygen_type, compounddef_type, listofallmembers_type, member_ref_type, scope_class,
  name_class, compound_ref_type, reimplement_type, inc_type, ref_type, ref_text_type,
  sectiondef_type, memberdef_type, definition_class, argsstring_class, read_class, write_class,
  bitfield_class, description_type, enumvalue_type, templateparamlist_type, param_type,
  declname_class, defname_class, array_class, linked_text_type, graph_type, node_type, label_class,
  childnode_type, edgelabel_class, link_type, listing_type, codeline_type, highlight_type, sp_class,
  reference_type, location_type, doc_sect1_type, doc_sect2_type, doc_sect3_type, doc_sect4_type,
  doc_internal_type, doc_internal_s1_type, doc_internal_s2_type, doc_internal_s3_type,
  doc_internal_s4_type, doc_title_type, doc_para_type, doc_markup_type, doc_url_link,
  doc_anchor_type, doc_formula_type, doc_index_entry_type, doc_list_type, doc_list_item_type,
  doc_simple_sect_type, doc_var_list_entry_type, doc_variable_list_type, doc_ref_text_type,
  doc_table_type, doc_row_type, doc_entry_type, doc_caption_type, doc_heading_type, doc_image_type,
  doc_dot_file_type, doc_toc_item_type, doc_toc_list_type, doc_language_type, doc_param_list_type,
  doc_param_list_item, doc_param_name_list, doc_param_name, doc_xref_sect_type, doc_copy_type,
  doc_char_type, doc_empty_type,
}
use aegir_sdr.Doxyxml.Compound.Object.{get_field, set_field}
use aegir_sdr.Doxyxml.Compound.Total.{IsConsistent, is_list_field}

pub all-IsConsistent : (c : ClassName) → IsConsistent c
unfolding is_list_field eq_text get_field set_field
all-IsConsistent doxygen_type = record {
  rules_lawful = refl;
  sub_lawful = refl;
  attributes_free = refl;
  lists_initial = refl;
  value_apart = refl;
  content_list = refl;
  para_list = refl;
}
all-IsConsistent compounddef_type = record {
  rules_lawful = refl;
  sub_lawful = refl;
  attributes_free = refl;
  lists_initial = refl;
  value_apart = refl;
  content_list = refl;
  para_list = refl;
}
all-IsConsistent listofallmembers_type = record {
  rules_lawful = refl;
  sub_lawful = refl;
  attributes_free = refl;
  lists_initial = refl;
  value_apart = refl;
  content_list = refl;
  para_list = refl;
}
all-IsConsistent member_ref_type = record {
  rules_lawful = refl;
  sub_lawful = refl;
  attributes_free = refl;
  lists_initial = refl;
  value_apart = refl;
  content_list = refl;
  para_list = refl;
}
all-IsConsistent scope_class = record {
  rules_lawful = refl;
  sub_lawful = refl;
  attributes_free = refl;
  lists_initial = refl;
  value_apart = refl;
  content_list = refl;
  para_list = refl;
}
all-IsConsistent name_class = record {
  rules_lawful = refl;
  sub_lawful = refl;
  attributes_free = refl;
  lists_initial = refl;
  value_apart = refl;
  content_list = refl;
  para_list = refl;
}
all-IsConsistent compound_ref_type = record {
  rules_lawful = refl;
  sub_lawful = refl;
  attributes_free = refl;
  lists_initial = refl;
  value_apart = refl;
  content_list = refl;
  para_list = refl;
}
all-IsConsistent reimplement_type = record {
  rules_lawful = refl;
  sub_lawful = refl;
  attributes_free = refl;
  lists_initial = refl;
  value_apart = refl;
  content_list = refl;
  para_list = refl;
}
all-IsConsistent inc_type = record {
  rules_lawful = refl;
  sub_lawful = refl;
  attributes_free = refl;
  lists_initial = refl;
  value_apart = refl;
  content_list = refl;
  para_list = refl;
}
all-IsConsistent ref_type = record {
  rules_lawful = refl;
  sub_lawful = refl;
  attributes_free = refl;
  lists_initial = refl;
  value_apart = refl;
  content_list = refl;
  para_list = refl;
}
all-IsConsistent ref_text_type = record {
  rules_lawful = refl;
  sub_lawful = refl;
  attributes_free = refl;
  lists_initial = refl;
  value_apart = refl;
  content_list = refl;
  para_list = refl;
}
all-IsConsistent sectiondef_type = record {
  rules_lawful = refl;
  sub_lawful = refl;
  attributes_free = refl;
  lists_initial = refl;
  value_apart = refl;
  content_list = refl;
  para_list = refl;
}
all-IsConsistent memberdef_type = record {
  rules_lawful = refl;
  sub_lawful = refl;
  attributes_free = refl;
  lists_initial = refl;
  value_apart = refl;
  content_list = refl;
  para_list = refl;
}
all-IsConsistent definition_class = record {
  rules_lawful = refl;
  sub_lawful = refl;
  attributes_free = refl;
  lists_initial = refl;
  value_apart = refl;
  content_list = refl;
  para_list = refl;
}
all-IsConsistent argsstring_class = record {
  rules_lawful = refl;
  sub_lawful = refl;
  attributes_free = refl;
  lists_initial = refl;
  value_apart = refl;
  content_list = refl;
  para_list = refl;
}
all-IsConsistent read_class = record {
  rules_lawful = refl;
  sub_lawful = refl;
  attributes_free = refl;
  lists_initial = refl;
  value_apart = refl;
  content_list = refl;
  para_list = refl;
}
all-IsConsistent write_class = record {
  rules_lawful = refl;
  sub_lawful = refl;
  attributes_free = refl;
  lists_initial = refl;
  value_apart = refl;
  content_list = refl;
  para_list = refl;
}
all-IsConsistent bitfield_class = record {
  rules_lawful = refl;
  sub_lawful = refl;
  attributes_free = refl;
  lists_initial = refl;
  value_apart = refl;
  content_list = refl;
  para_list = refl;
}
all-IsConsistent description_type = record {
  rules_lawful = refl;
  sub_lawful = refl;
  attributes_free = refl;
  lists_initial = refl;
  value_apart = refl;
  content_list = refl;
  para_list = refl;
}
all-IsConsistent enumvalue_type = record {
  rules_lawful = refl;
  sub_lawful = refl;
  attributes_free = refl;
  lists_initial = refl;
  value_apart = refl;
  content_list = refl;
  para_list = refl;
}
all-IsConsistent templateparamlist_type = record {
  rules_lawful = refl;
  sub_lawful = refl;
  attributes_free = refl;
  lists_initial = refl;
  value_apart = refl;
  content_list = refl;
  para_list = refl;
}
all-IsConsistent param_type = record {
  rules_lawful = refl;
  sub_lawful = refl;
  attributes_free = refl;
  lists_initial = refl;
  value_apart = refl;
  content_list = refl;
  para_list = refl;
}
all-IsConsistent declname_class = record {
  rules_lawful = refl;
  sub_lawful = refl;
  attributes_free = refl;
  lists_initial = refl;
  value_apart = refl;
  content_list = refl;
  para_list = refl;
}
all-IsConsistent defname_class = record {
  rules_lawful = refl;
  sub_lawful = refl;
  attributes_free = refl;
  lists_initial = refl;
  value_apart = refl;
  content_list = refl;
  para_list = refl;
}
all-IsConsistent array_class = record {
  rules_lawful = refl;
  sub_lawful = refl;
  attributes_free = refl;
  lists_initial = refl;
  value_apart = refl;
  content_list = refl;
  para_list = refl;
}
all-IsConsistent linked_text_type = record {
  rules_lawful = refl;
  sub_lawful = refl;
  attributes_free = refl;
  lists_initial = refl;
  value_apart = refl;
  content_list = refl;
  para_list = refl;
}
all-IsConsistent graph_type = record {
  rules_lawful = refl;
  sub_lawful = refl;
  attributes_free = refl;
  lists_initial = refl;
  value_apart = refl;
  content_list = refl;
  para_list = refl;
}
all-IsConsistent node_type = record {
  rules_lawful = refl;
  sub_lawful = refl;
  attributes_free = refl;
  lists_initial = refl;
  value_apart = refl;
  content_list = refl;
  para_list = refl;
}
all-IsConsistent label_class = record {
  rules_lawful = refl;
  sub_lawful = refl;
  attributes_free = refl;
  lists_initial = refl;
  value_apart = refl;
  content_list = refl;
  para_list = refl;
}
all-IsConsistent childnode_type = record {
  rules_lawful = refl;
  sub_lawful = refl;
  attributes_free = refl;
  lists_initial = refl;
  value_apart = refl;
  content_list = refl;
  para_list = refl;
}
all-IsConsistent edgelabel_class = record {
  rules_lawful = refl;
  sub_lawful = refl;
  attributes_free = refl;
  lists_initial = refl;
  value_apart = refl;
  content_list = refl;
  para_list = refl;
}
all-IsConsistent link_type = record {
  rules_lawful = refl;
  sub_lawful = refl;
  attributes_free = refl;
  lists_initial = refl;
  value_apart = refl;
  content_list = refl;
  para_list = refl;
}
all-IsConsistent listing_type = record {
  rules_lawful = refl;
  sub_lawful = refl;
  attributes_free = refl;
  lists_initial = refl;
  value_apart = refl;
  content_list = refl;
  para_list = refl;
}
all-IsConsistent codeline_type = record {
  rules_lawful = refl;
  sub_lawful = refl;
  attributes_free = refl;
  lists_initial = refl;
  value_apart = refl;
  content_list = refl;
  para_list = refl;
}
all-IsConsistent highlight_type = record {
  rules_lawful = refl;
  sub_lawful = refl;
  attributes_free = refl;
  lists_initial = refl;
  value_apart = refl;
  content_list = refl;
  para_list = refl;
}
all-IsConsistent sp_class = record {
  rules_lawful = refl;
  sub_lawful = refl;
  attributes_free = refl;
  lists_initial = refl;
  value_apart = refl;
  content_list = refl;
  para_list = refl;
}
all-IsConsistent reference_type = record {
  rules_lawful = refl;
  sub_lawful = refl;
  attributes_free = refl;
  lists_initial = refl;
  value_apart = refl;
  content_list = refl;
  para_list = refl;
}
all-IsConsistent location_type = record {
  rules_lawful = refl;
  sub_lawful = refl;
  attributes_free = refl;
  lists_initial = refl;
  value_apart = refl;
  content_list = refl;
  para_list = refl;
}
all-IsConsistent doc_sect1_type = record {
  rules_lawful = refl;
  sub_lawful = refl;
  attributes_free = refl;
  lists_initial = refl;
  value_apart = refl;
  content_list = refl;
  para_list = refl;
}
all-IsConsistent doc_sect2_type = record {
  rules_lawful = refl;
  sub_lawful = refl;
  attributes_free = refl;
  lists_initial = refl;
  value_apart = refl;
  content_list = refl;
  para_list = refl;
}
all-IsConsistent doc_sect3_type = record {
  rules_lawful = refl;
  sub_lawful = refl;
  attributes_free = refl;
  lists_initial = refl;
  value_apart = refl;
  content_list = refl;
  para_list = refl;
}
all-IsConsistent doc_sect4_type = record {
  rules_lawful = refl;
  sub_lawful = refl;
  attributes_free = refl;
  lists_initial = refl;
  value_apart = refl;
  content_list = refl;
  para_list = refl;
}
all-IsConsistent doc_internal_type = record {
  rules_lawful = refl;
  sub_lawful = refl;
  attributes_free = refl;
  lists_initial = refl;
  value_apart = refl;
  content_list = refl;
  para_list = refl;
}
all-IsConsistent doc_internal_s1_type = record {
  rules_lawful = refl;
  sub_lawful = refl;
  attributes_free = refl;
  lists_initial = refl;
  value_apart = refl;
  content_list = refl;
  para_list = refl;
}
all-IsConsistent doc_internal_s2_type = record {
  rules_lawful = refl;
  sub_lawful = refl;
  attributes_free = refl;
  lists_initial = refl;
  value_apart = refl;
  content_list = refl;
  para_list = refl;
}
all-IsConsistent doc_internal_s3_type = record {
  rules_lawful = refl;
  sub_lawful = refl;
  attributes_free = refl;
  lists_initial = refl;
  value_apart = refl;
  content_list = refl;
  para_list = refl;
}
all-IsConsistent doc_internal_s4_type = record {
  rules_lawful = refl;
  sub_lawful = refl;
  attributes_free = refl;
  lists_initial = refl;
  value_apart = refl;
  content_list = refl;
  para_list = refl;
}
all-IsConsistent doc_title_type = record {
  rules_lawful = refl;
  sub_lawful = refl;
  attributes_free = refl;
  lists_initial = refl;
  value_apart = refl;
  content_list = refl;
  para_list = refl;
}
all-IsConsistent doc_para_type = record {
  rules_lawful = refl;
  sub_lawful = refl;
  attributes_free = refl;
  lists_initial = refl;
  value_apart = refl;
  content_list = refl;
  para_list = refl;
}
all-IsConsistent doc_markup_type = record {
  rules_lawful = refl;
  sub_lawful = refl;
  attributes_free = refl;
  lists_initial = refl;
  value_apart = refl;
  content_list = refl;
  para_list = refl;
}
all-IsConsistent doc_url_link = record {
  rules_lawful = refl;
  sub_lawful = refl;
  attributes_free = refl;
  lists_initial = refl;
  value_apart = refl;
  content_list = refl;
  para_list = refl;
}
all-IsConsistent doc_anchor_type = record {
  rules_lawful = refl;
  sub_lawful = refl;
  attributes_free = refl;
  lists_initial = refl;
  value_apart = refl;
  content_list = refl;
  para_list = refl;
}
all-IsConsistent doc_formula_type = record {
  rules_lawful = refl;
  sub_lawful = refl;
  attributes_free = refl;
  lists_initial = refl;
  value_apart = refl;
  content_list = refl;
  para_list = refl;
}
all-IsConsistent doc_index_entry_type = record {
  rules_lawful = refl;
  sub_lawful = refl;
  attributes_free = refl;
  lists_initial = refl;
  value_apart = refl;
  content_list = refl;
  para_list = refl;
}
all-IsConsistent doc_list_type = record {
  rules_lawful = refl;
  sub_lawful = refl;
  attributes_free = refl;
  lists_initial = refl;
  value_apart = refl;
  content_list = refl;
  para_list = refl;
}
all-IsConsistent doc_list_item_type = record {
  rules_lawful = refl;
  sub_lawful = refl;
  attributes_free = refl;
  lists_initial = refl;
  value_apart = refl;
  content_list = refl;
  para_list = refl;
}
all-IsConsistent doc_simple_sect_type = record {
  rules_lawful = refl;
  sub_lawful = refl;
  attributes_free = refl;
  lists_initial = refl;
  value_apart = refl;
  content_list = refl;
  para_list = refl;
}
all-IsConsistent doc_var_list_entry_type = record {
  rules_lawful = refl;
  sub_lawful = refl;
  attributes_free = refl;
  lists_initial = refl;
  value_apart = refl;
  content_list = refl;
  para_list = refl;
}
all-IsConsistent doc_variable_list_type = record {
  rules_lawful = refl;
  sub_lawful = refl;
  attributes_free = refl;
  lists_initial = refl;
  value_apart = refl;
  content_list = refl;
  para_list = refl;
}
all-IsConsistent doc_ref_text_type = record {
  rules_lawful = refl;
  sub_lawful = refl;
  attributes_free = refl;
  lists_initial = refl;
  value_apart = refl;
  content_list = refl;
  para_list = refl;
}
all-IsConsistent doc_table_type = record {
  rules_lawful = refl;
  sub_lawful = refl;
  attributes_free = refl;
  lists_initial = refl;
  value_apart = refl;
  content_list = refl;
  para_list = refl;
}
all-IsConsistent doc_row_type = record {
  rules_lawful = refl;
  sub_lawful = refl;
  attributes_free = refl;
  lists_initial = refl;
  value_apart = refl;
  content_list = refl;
  para_list = refl;
}
all-IsConsistent doc_entry_type = record {
  rules_lawful = refl;
  sub_lawful = refl;
  attributes_free = refl;
  lists_initial = refl;
  value_apart = refl;
  content_list = refl;
  para_list = refl;
}
all-IsConsistent doc_caption_type = record {
  rules_lawful = refl;
  sub_lawful = refl;
  attributes_free = refl;
  lists_initial = refl;
  value_apart = refl;
  content_list = refl;
  para_list = refl;
}
all-IsConsistent doc_heading_type = record {
  rules_lawful = refl;
  sub_lawful = refl;
  attributes_free = refl;
  lists_initial = refl;
  value_apart = refl;
  content_list = refl;
  para_list = refl;
}
all-IsConsistent doc_image_type = record {
  rules_lawful = refl;
  sub_lawful = refl;
  attributes_free = refl;
  lists_initial = refl;
  value_apart = refl;
  content_list = refl;
  para_list = refl;
}
all-IsConsistent doc_dot_file_type = record {
  rules_lawful = refl;
  sub_lawful = refl;
  attributes_free = refl;
  lists_initial = refl;
  value_apart = refl;
  content_list = refl;
  para_list = refl;
}
all-IsConsistent doc_toc_item_type = record {
  rules_lawful = refl;
  sub_lawful = refl;
  attributes_free = refl;
  lists_initial = refl;
  value_apart = refl;
  content_list = refl;
  para_list = refl;
}
all-IsConsistent doc_toc_list_type = record {
  rules_lawful = refl;
  sub_lawful = refl;
  attributes_free = refl;
  lists_initial = refl;
  value_apart = refl;
  content_list = refl;
  para_list = refl;
}
all-IsConsistent doc_language_type = record {
  rules_lawful = refl;
  sub_lawful = refl;
  attributes_free = refl;
  lists_initial = refl;
  value_apart = refl;
  content_list = refl;
  para_list = refl;
}
all-IsConsistent doc_param_list_type = record {
  rules_lawful = refl;
  sub_lawful = refl;
  attributes_free = refl;
  lists_initial = refl;
  value_apart = refl;
  content_list = refl;
  para_list = refl;
}
all-IsConsistent doc_param_list_item = record {
  rules_lawful = refl;
  sub_lawful = refl;
  attributes_free = refl;
  lists_initial = refl;
  value_apart = refl;
  content_list = refl;
  para_list = refl;
}
all-IsConsistent doc_param_name_list = record {
  rules_lawful = refl;
  sub_lawful = refl;
  attributes_free = refl;
  lists_initial = refl;
  value_apart = refl;
  content_list = refl;
  para_list = refl;
}
all-IsConsistent doc_param_name = record {
  rules_lawful = refl;
  sub_lawful = refl;
  attributes_free = refl;
  lists_initial = refl;
  value_apart = refl;
  content_list = refl;
  para_list = refl;
}
all-IsConsistent doc_xref_sect_type = record {
  rules_lawful = refl;
  sub_lawful = refl;
  attributes_free = refl;
  lists_initial = refl;
  value_apart = refl;
  content_list = refl;
  para_list = refl;
}
all-IsConsistent doc_copy_type = record {
  rules_lawful = refl;
  sub_lawful = refl;
  attributes_free = refl;
  lists_initial = refl;
  value_apart = refl;
  content_list = refl;
  para_list = refl;
}
all-IsConsistent doc_char_type = record {
  rules_lawful = refl;
  sub_lawful = refl;
  attributes_free = refl;
  lists_initial = refl;
  value_apart = refl;
  content_list = refl;
  para_list = refl;
}
all-IsConsistent doc_empty_type = record {
  rules_lawful = refl;
  sub_lawful = refl;
  attributes_free = refl;
  lists_initial = refl;
  value_apart = refl;
  content_list = refl;
  para_list = refl;
}
