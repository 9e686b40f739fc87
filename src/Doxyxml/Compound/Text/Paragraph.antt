-- ===== src/Doxyxml/Compound/Text/Paragraph.antt =====
-- From the nodes of a description to its text.
use aegir_sdr.Common.{
  Bool, true, none, some, List, [], ◌∷◌, ◌++◌, ◌≡◌, refl, ap, ◌∙◌, Text, codes, eq_text, all,
  append-nil,
}
use aegir_sdr.Doxyxml.Base.{returns}
use aegir_sdr.Doxyxml.Dom.{element, text, Nodes, nil, cons, local_name}
use aegir_sdr.Doxyxml.Compound.Classes.{description_type, doc_para_type}
use aegir_sdr.Doxyxml.Compound.Object.{
  and_then, Value, list, object, mixed_container, category_complex, Values, ◌+++◌, Fields,
  no_fields, field, get_field, set_field, append_field,
}
use aegir_sdr.Doxyxml.Compound.Build.{
  find_rule, text_container, build_children, build_child, apply_rule, start, build,
  build_attributes, build_text, add_mixed_text, add_value, sub_text,
}
use aegir_sdr.Doxyxml.Compound.Steps.{
  build_children-nil, build_children-cons, build_object-some, build_child-element,
}
use aegir_sdr.Doxyxml.Description.Breaks.{&&-left, &&-right}
use aegir_sdr.Doxyxml.Compound.Text.{bit_of, bits_of}
use aegir_sdr.Doxyxml.Description.{add_breaks, description_bit, description_bits, add_text}
use aegir_sdr.Doxyxml.Compound.Text.Inline.{
  Inline, words, reference, markup, has_no_rule, inline_nodes, para_fields, mixed_of, words_of,
  contents_of, para_children, append_two, start_para,
}

-- The text of a paragraph: what stands inside markup is not part of it.
abbrev pub inline_text : List Inline → Text
inline_text [] = []
inline_text (words t ∷ is) = t ++ inline_text is
inline_text (reference refid kindref t ∷ is) = t ++ inline_text is
inline_text (markup name attrs ns ∷ is) = inline_text is

-- The text of the bits of a paragraph.
contents_text :
    (is : List Inline) → description_bits (bits_of (contents_of is)) ≡ returns (inline_text is)
unfolding bits_of description_bits eq_text get_field
contents_text [] = refl
contents_text (words t ∷ is) = ap (add_text (returns t)) (contents_text is)
contents_text (reference refid kindref t ∷ is) =
    ap (λ s. add_text (returns s) (description_bits (bits_of (contents_of is)))) (append-nil t)
    ∙ ap (add_text (returns t)) (contents_text is)
contents_text (markup name attrs ns ∷ is) = contents_text is

-- A paragraph of a description, with the text in front of it.
pub record Para : Type 0 where
  pub gap : Text
  pub inlines : List Inline

-- The nodes of a description: paragraphs, text in front of each, and text at the end.
abbrev pub description_nodes : List Para → Text → Nodes
description_nodes [] end = cons (text end) nil
description_nodes (p ∷ ps) end =
    cons (text p.gap)
      (cons (element (codes "para") [] (inline_nodes p.inlines)) (description_nodes ps end))

abbrev pub description_text : List Para → Text → Text
description_text [] end = end
description_text (p ∷ ps) end =
    p.gap ++ ((inline_text p.inlines ++ codes "\n\n") ++ description_text ps end)

abbrev para_object : List Inline → Value
para_object p = object doc_para_type (para_fields (mixed_of p) (words_of p) (contents_of p))

abbrev description_values : List Para → Text → Values
description_values [] end = Values.cons (text_container end) Values.nil
description_values (p ∷ ps) end = Values.cons (text_container p.gap) (
    Values.cons (mixed_container category_complex (codes "para") (para_object p.inlines))
      (description_values ps end))

abbrev content_fields : Values → Fields
content_fields vs = field (codes "content_") (list vs) no_fields

child_para :
    (p : List Inline) (vs : Values)
    → all has_no_rule p ≡ true
    → build_child (element (codes "para") [] (inline_nodes p)) description_type (content_fields vs)
      ≡ some (
          content_fields (
            vs
            +++ Values.cons
                (mixed_container category_complex (codes "para") (para_object p))
                Values.nil))
unfolding apply_rule find_rule local_name eq_text append_field get_field set_field
child_para p vs h =
    build_child-element (codes "para") [] (inline_nodes p) description_type (content_fields vs) _
      refl
      (build_object-some (build_children (inline_nodes p)) [] doc_para_type _ _ _ start_para
        (para_children p h Values.nil [] Values.nil))

-- No paragraph has an element that a branch is for but references.
abbrev pub are_plain : List Para → Bool
are_plain ps = all (λ p. all has_no_rule p.inlines) ps

child_gap :
    (gap : Text) (vs : Values)
    → build_child (text gap) description_type (content_fields vs)
      ≡ some (content_fields (vs +++ Values.cons (text_container gap) Values.nil))
unfolding build_child build_text add_mixed_text add_value sub_text append_field get_field set_field
    eq_text
child_gap gap vs = refl

description_children :
    (ps : List Para) (end : Text) (vs : Values)
    → are_plain ps ≡ true
    → build_children (description_nodes ps end) description_type (content_fields vs)
      ≡ some (content_fields (vs +++ description_values ps end))
description_children [] end vs h =
    build_children-cons (text end) nil description_type _ _ (child_gap end vs)
    ∙ build_children-nil description_type _
description_children (p ∷ ps) end vs h =
    build_children-cons (text p.gap) _ description_type _ _ (child_gap p.gap vs)
    ∙ build_children-cons (element (codes "para") [] (inline_nodes p.inlines))
        (description_nodes ps end) description_type _ _
        (child_para p.inlines (vs +++ Values.cons (text_container p.gap) Values.nil)
          (&&-left _ _ h))
    ∙ description_children ps end _ (&&-right _ _ h)
    ∙ ap (λ ws. some (content_fields ws))
        (append_two vs (text_container p.gap)
          (mixed_container category_complex (codes "para") (para_object p.inlines))
          (description_values ps end))

bits_text :
    (ps : List Para) (end : Text)
    → description_bits (bits_of (description_values ps end)) ≡ returns (description_text ps end)
unfolding bits_of description_bits eq_text get_field
bits_text [] end = ap (λ s. returns s) (append-nil end)
bits_text (p ∷ ps) end =
    ap
      (λ r. add_text (returns p.gap) (
        add_text (add_breaks (some (codes "para")) (add_breaks none r))
          (description_bits (bits_of (description_values ps end)))))
      (contents_text p.inlines)
    ∙ ap
        (λ r.
          add_text (returns p.gap) (add_text (returns (inline_text p.inlines ++ codes "\n\n")) r))
        (bits_text ps end)

-- From a description of paragraphs, each of words, references with `refid` and `kindref`, and other markup, but without
-- `parameterlist` and `simplesect`, the object that is built is described by the words and the references of the
-- paragraphs, two line breaks behind each, and the text between the paragraphs; no text inside other
-- markup is in it.
pub build-description_text :
    (ps : List Para) (end : Text)
    → are_plain ps ≡ true
    → (v : Value) × (build description_type [] (description_nodes ps end) ≡ some v)
      × (description_bit (bit_of v) ≡ returns (description_text ps end))
unfolding build start build_attributes bit_of description_bit eq_text get_field
build-description_text ps end h = (
  object description_type (content_fields (description_values ps end)),
  ap (λ o. and_then o (λ gs. some (object description_type gs)))
      (description_children ps end Values.nil h),
  ap (add_breaks none) (bits_text ps end),
)
