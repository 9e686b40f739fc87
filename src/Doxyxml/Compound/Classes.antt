-- ===== src/Doxyxml/Compound/Classes.antt =====
-- The classes of generated/compoundsuper.py, in its order.
pub data ClassName : Type 0 where
  doxygen_type : ClassName
  compounddef_type : ClassName
  listofallmembers_type : ClassName
  member_ref_type : ClassName
  scope_class : ClassName
  name_class : ClassName
  compound_ref_type : ClassName
  reimplement_type : ClassName
  inc_type : ClassName
  ref_type : ClassName
  ref_text_type : ClassName
  sectiondef_type : ClassName
  memberdef_type : ClassName
  definition_class : ClassName
  argsstring_class : ClassName
  read_class : ClassName
  write_class : ClassName
  bitfield_class : ClassName
  description_type : ClassName
  enumvalue_type : ClassName
  templateparamlist_type : ClassName
  param_type : ClassName
  declname_class : ClassName
  defname_class : ClassName
  array_class : ClassName
  linked_text_type : ClassName
  graph_type : ClassName
  node_type : ClassName
  label_class : ClassName
  childnode_type : ClassName
  edgelabel_class : ClassName
  link_type : ClassName
  listing_type : ClassName
  codeline_type : ClassName
  highlight_type : ClassName
  sp_class : ClassName
  reference_type : ClassName
  location_type : ClassName
  doc_sect1_type : ClassName
  doc_sect2_type : ClassName
  doc_sect3_type : ClassName
  doc_sect4_type : ClassName
  doc_internal_type : ClassName
  doc_internal_s1_type : ClassName
  doc_internal_s2_type : ClassName
  doc_internal_s3_type : ClassName
  doc_internal_s4_type : ClassName
  doc_title_type : ClassName
  doc_para_type : ClassName
  doc_markup_type : ClassName
  doc_url_link : ClassName
  doc_anchor_type : ClassName
  doc_formula_type : ClassName
  doc_index_entry_type : ClassName
  doc_list_type : ClassName
  doc_list_item_type : ClassName
  doc_simple_sect_type : ClassName
  doc_var_list_entry_type : ClassName
  doc_variable_list_type : ClassName
  doc_ref_text_type : ClassName
  doc_table_type : ClassName
  doc_row_type : ClassName
  doc_entry_type : ClassName
  doc_caption_type : ClassName
  doc_heading_type : ClassName
  doc_image_type : ClassName
  doc_dot_file_type : ClassName
  doc_toc_item_type : ClassName
  doc_toc_list_type : ClassName
  doc_language_type : ClassName
  doc_param_list_type : ClassName
  doc_param_list_item : ClassName
  doc_param_name_list : ClassName
  doc_param_name : ClassName
  doc_xref_sect_type : ClassName
  doc_copy_type : ClassName
  doc_char_type : ClassName
  doc_empty_type : ClassName
