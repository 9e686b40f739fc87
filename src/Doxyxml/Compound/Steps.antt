-- ===== src/Doxyxml/Compound/Steps.antt =====
-- One turn of the loop of `build`.
use aegir_sdr.Common.{Option, some, none, List, [], Text, ◌≡◌, refl, ap, ◌∙◌}
use aegir_sdr.Doxyxml.Dom.{Node, element, Nodes, nil, cons, local_name, text_content}
use aegir_sdr.Doxyxml.Compound.Classes.{ClassName}
use aegir_sdr.Doxyxml.Compound.Object.{and_then, Value, object, Fields}
use aegir_sdr.Doxyxml.Compound.Build.{
  build_children, build_child, build_object, start, find_rule, sub_rules, apply_rule,
}
use aegir_sdr.Doxyxml.Compound.Schemas.{schema}

pub build_children-cons :
    (n : Node) (ns : Nodes) (c : ClassName) (fs gs : Fields)
    → build_child n c fs ≡ some gs
    → build_children (cons n ns) c fs ≡ build_children ns c gs
unfolding build_children
build_children-cons n ns c fs gs e = ap (λ o. and_then o (build_children ns c)) e

-- An object that is built, and kept.
pub build_object-some :
    (children : ClassName → Fields → Option Fields) (attrs : List (Text × Text)) (c : ClassName)
    (keep : Value → Option Fields) (fs gs : Fields)
    → start c attrs ≡ some fs
    → children c fs ≡ some gs
    → build_object children attrs c keep ≡ keep (object c gs)
unfolding build_object
build_object-some children attrs c keep fs gs started built = rw (build_object, started, built) refl

-- A child element, in a class whose subclass adds nothing for its name.
pub build_child-element :
    (name : Text) (attrs : List (Text × Text)) (children : Nodes) (c : ClassName) (fs gs : Fields)
    → find_rule (sub_rules c) (local_name name) ≡ none
    → apply_rule
        (build_children children)
        (local_name name)
        attrs
        (text_content [] children)
        (find_rule (schema c).rules (local_name name))
        fs
      ≡ some gs
    → build_child (element name attrs children) c fs ≡ some gs
unfolding build_child apply_rule
build_child-element name attrs children c fs gs alone e =
    ap
      (λ o. and_then o (
        apply_rule (build_children children) (local_name name) attrs (text_content [] children)
          (find_rule (sub_rules c) (local_name name))))
      e
    ∙ ap
        (λ r.
          apply_rule (build_children children) (local_name name) attrs (text_content [] children) r
            gs)
        alone

pub build_children-nil : (c : ClassName) (fs : Fields) → build_children nil c fs ≡ some fs
unfolding build_children
build_children-nil c fs = refl
