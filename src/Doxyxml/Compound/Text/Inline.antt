-- ===== src/Doxyxml/Compound/Text/Inline.antt =====
-- The objects that are built from the nodes of a paragraph.
use aegir_sdr.Common.{
  Bool, true, false, Option, Option-cases, inl, inr, none, some, List, [], ◌∷◌, ◌++◌, ◌≡◌, refl,
  sym, ap, ◌∙◌, subst, Text, codes, eq_text, all, append_assoc, append-nil,
}
use aegir_sdr.Doxyxml.Base.Lookup.{clash}
use aegir_sdr.Doxyxml.Dom.{
  Node, element, text, Nodes, nil, cons, local_name, get_attr, text_content,
}
use aegir_sdr.Doxyxml.Compound.Classes.{doc_para_type, doc_ref_text_type}
use aegir_sdr.Doxyxml.Compound.Object.{
  Value, string, list, object, Values, ◌+++◌, Fields, no_fields, field, missing, get_field,
  set_field, append_field,
}
use aegir_sdr.Doxyxml.Compound.Build.{
  find_rule, para_rules, text_container, build_children, build_child, build_object, apply_rule,
  start, build_attributes, build_attribute, build_text, add_mixed_text, add_value, sub_text,
}
use aegir_sdr.Doxyxml.Compound.Steps.{build_children-cons}
use aegir_sdr.Doxyxml.Description.Breaks.{&&-left, &&-right}

-- What a paragraph holds: words, a reference to something documented with its `refid` and `kindref`, and markup of
-- another name.
pub data Inline : Type 0 where
  words : Text → Inline
  reference : Text → Text → Text → Inline
  markup : Text → List (Text × Text) → Nodes → Inline

abbrev pub is_none {ℓ} : {A : Type ℓ} → Option A → Bool
is_none none = true
is_none (some a) = false

-- No branch of `docParaTypeSub.buildChildren` is for the name of the markup.
abbrev pub has_no_rule : Inline → Bool
has_no_rule (words t) = true
has_no_rule (reference refid kindref t) = true
has_no_rule (markup name attrs ns) = is_none (find_rule para_rules (local_name name))

abbrev pub inline_node : Inline → Node
inline_node (words t) = text t
inline_node (reference refid kindref t) =
    element (codes "ref") ((codes "refid", refid) ∷ (codes "kindref", kindref) ∷ [])
      (cons (text t) nil)
inline_node (markup name attrs ns) = element name attrs ns

abbrev pub inline_nodes : List Inline → Nodes
inline_nodes [] = nil
inline_nodes (i ∷ is) = cons (inline_node i) (inline_nodes is)

abbrev pub para_fields : Values → Text → Values → Fields
para_fields mixed value contents = field (codes "content_") (list mixed) (
    field (codes "parameterlist") (list Values.nil) (
      field (codes "simplesects") (list Values.nil) (
        field (codes "content") (list contents)
          (field (codes "valueOf_") (string value) no_fields))))

abbrev pub ref_object : Text → Text → Text → Value
ref_object refid kindref t = object doc_ref_text_type (
    field (codes "refid") (string refid) (
      field (codes "kindref") (string kindref) (
        field (codes "external") missing (
          field (codes "content_") (list (Values.cons (text_container t) Values.nil))
            (field (codes "valueOf_") (string t) no_fields)))))

pub start_para : start doc_para_type [] ≡ some (para_fields Values.nil [] Values.nil)
unfolding start build_attributes set_field eq_text
start_para = refl

child_words :
    (t : Text) (a : Values) (v : Text) (c : Values)
    → build_child (text t) doc_para_type (para_fields a v c)
      ≡ some (
          para_fields
            (a +++ Values.cons (text_container t) Values.nil)
            (v ++ t)
            (c +++ Values.cons (text_container t) Values.nil))
unfolding build_child build_text add_mixed_text add_value sub_text append_field get_field set_field
    eq_text
child_words t a v c = refl

child_reference :
    (refid kindref t : Text) (a : Values) (v : Text) (c : Values)
    → build_child (inline_node (reference refid kindref t)) doc_para_type (para_fields a v c)
      ≡ some (para_fields a v (c +++ Values.cons (ref_object refid kindref t) Values.nil))
unfolding build_child apply_rule find_rule local_name eq_text build_object start build_attributes
    build_attribute get_attr build_text add_mixed_text add_value sub_text append_field get_field
    set_field text_content
child_reference refid kindref t a v c = refl

no_rule :
    (name : Text) (attrs : List (Text × Text)) (ns : Nodes)
    → has_no_rule (markup name attrs ns) ≡ true
    → find_rule para_rules (local_name name) ≡ none
no_rule name attrs ns h = elim (Option-cases (find_rule para_rules (local_name name))) [
  | inl e ↦ e
  | inr (r, e) ↦ clash (subst (λ o. is_none o ≡ true) e h)
]

child_markup :
    (name : Text) (attrs : List (Text × Text)) (ns : Nodes) (fs : Fields)
    → has_no_rule (markup name attrs ns) ≡ true
    → build_child (inline_node (markup name attrs ns)) doc_para_type fs ≡ some fs
unfolding build_child apply_rule find_rule
child_markup name attrs ns fs h = rw (no_rule name attrs ns h, find_rule) refl

-- The objects of a paragraph in `content_` and in `content`.
abbrev pub mixed_of : List Inline → Values
mixed_of [] = Values.nil
mixed_of (words t ∷ is) = Values.cons (text_container t) (mixed_of is)
mixed_of (reference refid kindref t ∷ is) = mixed_of is
mixed_of (markup name attrs ns ∷ is) = mixed_of is

abbrev pub words_of : List Inline → Text
words_of [] = []
words_of (words t ∷ is) = t ++ words_of is
words_of (reference refid kindref t ∷ is) = words_of is
words_of (markup name attrs ns ∷ is) = words_of is

abbrev pub contents_of : List Inline → Values
contents_of [] = Values.nil
contents_of (words t ∷ is) = Values.cons (text_container t) (contents_of is)
contents_of (reference refid kindref t ∷ is) =
    Values.cons (ref_object refid kindref t) (contents_of is)
contents_of (markup name attrs ns ∷ is) = contents_of is

+++_assoc : (a b c : Values) → (a +++ b) +++ c ≡ a +++ (b +++ c)
+++_assoc Values.nil b c = refl
+++_assoc (Values.cons v a) b c = ap (Values.cons v) (+++_assoc a b c)

+++-nil : (a : Values) → a +++ Values.nil ≡ a
+++-nil Values.nil = refl
+++-nil (Values.cons v a) = ap (Values.cons v) (+++-nil a)

pub append_two :
    (vs : Values) (v w : Value) (ws : Values)
    → ((vs +++ Values.cons v Values.nil) +++ Values.cons w Values.nil) +++ ws
      ≡ vs +++ Values.cons v (Values.cons w ws)
append_two vs v w ws =
    +++_assoc (vs +++ Values.cons v Values.nil) (Values.cons w Values.nil) ws
    ∙ +++_assoc vs (Values.cons v Values.nil) (Values.cons w ws)

para_eq :
    {a b : Values} {v w : Text} {c d : Values}
    → a ≡ b
    → v ≡ w
    → c ≡ d
    → some (para_fields a v c) ≡ some (para_fields b w d)
para_eq p q r = cc

pub para_children :
    (is : List Inline)
    → all has_no_rule is ≡ true
    → (a : Values) (v : Text) (c : Values)
    → build_children (inline_nodes is) doc_para_type (para_fields a v c)
      ≡ some (para_fields (a +++ mixed_of is) (v ++ words_of is) (c +++ contents_of is))
unfolding build_children
para_children [] h a v c = para_eq (sym (+++-nil a)) (sym (append-nil v)) (sym (+++-nil c))
para_children (words t ∷ is) h a v c =
    build_children-cons (text t) (inline_nodes is) doc_para_type _ _ (child_words t a v c)
    ∙ (para_children is h (a +++ Values.cons (text_container t) Values.nil) (v ++ t)
          (c +++ Values.cons (text_container t) Values.nil)
        ∙ para_eq (+++_assoc a _ (mixed_of is)) (append_assoc v t (words_of is))
            (+++_assoc c _ (contents_of is)))
para_children (reference refid kindref t ∷ is) h a v c =
    build_children-cons (inline_node (reference refid kindref t)) (inline_nodes is) doc_para_type _
      _ (child_reference refid kindref t a v c)
    ∙ (para_children is h a v (c +++ Values.cons (ref_object refid kindref t) Values.nil)
        ∙ para_eq refl refl (+++_assoc c _ (contents_of is)))
para_children (markup name attrs ns ∷ is) h a v c =
    build_children-cons (inline_node (markup name attrs ns)) (inline_nodes is) doc_para_type _ _
      (child_markup name attrs ns (para_fields a v c) (&&-left _ _ h))
    ∙ para_children is (&&-right _ _ h) a v c
