-- ===== src/Doxyxml/Compound/Total/Returns.antt =====
-- The builders come to the end of a tree if and only if it asks for no more than it has.
use aegir_sdr.Common.{true, ◌&&◌, some, List, [], ◌≡◌, ◌↔◌, refl, ap, ◌∙◌, Text}
use aegir_sdr.Doxyxml.Description.Breaks.{&&-left, &&-right}
use aegir_sdr.Doxyxml.Dom.{
  Node, element, text, cdata, other, Nodes, nil, cons, local_name, text_content,
}
use aegir_sdr.Doxyxml.Compound.Classes.{ClassName}
use aegir_sdr.Doxyxml.Compound.Object.{and_then, Value, object, Fields}
use aegir_sdr.Doxyxml.Compound.Schemas.{schema}
use aegir_sdr.Doxyxml.Compound.Build.{
  sub_text, find_rule, apply_rule, sub_rules, build_children, build_child, build,
}
use aegir_sdr.Doxyxml.Compound.Total.{has_numbers, are_buildable, is_buildable}
use aegir_sdr.Doxyxml.Compound.Total.Schemas.{all-IsConsistent}
use aegir_sdr.Doxyxml.Compound.Total.Held.{IsTyped}
use aegir_sdr.Doxyxml.Compound.Total.Start.{start-IsTyped}
use aegir_sdr.Doxyxml.Compound.Total.Asked.{build-asked}
use aegir_sdr.Doxyxml.Compound.Total.Rules.{
  Goes, apply_rule-Goes, build_text-Goes, build_cdata-Goes, para_text-Goes,
}

mutual
  unfolding build_children build_child are_buildable is_buildable

  children-Goes :
      (ns : Nodes) (c : ClassName) (fs : Fields)
      → IsTyped c fs
      → are_buildable ns c ≡ true
      → Goes c (build_children ns c fs)
  children-Goes nil c fs typed fine = (fs, refl, typed)
  children-Goes (cons n ns) c fs typed fine =
      let (hs, first, held) = child-Goes n c fs typed (&&-left _ _ fine) in
      let (gs, rest, kept) = children-Goes ns c hs held (&&-right _ _ fine) in
      (gs, ap (λ o. and_then o (build_children ns c)) first ∙ rest, kept)

  child-Goes :
      (n : Node) (c : ClassName) (fs : Fields)
      → IsTyped c fs
      → is_buildable n c ≡ true
      → Goes c (build_child n c fs)
  child-Goes (element name attrs children) c fs typed fine =
      let (hs, first, held) =
        apply_rule-Goes (build_children children) (are_buildable children)
          (λ d is t h. children-Goes children d is t h) (local_name name) attrs
          (text_content [] children) c fs typed (schema c).rules (all-IsConsistent c).rules_lawful
          (&&-left _ _ fine) in
      let (gs, rest, kept) =
        apply_rule-Goes (build_children children) (are_buildable children)
          (λ d is t h. children-Goes children d is t h) (local_name name) attrs
          (text_content [] children) c hs held (sub_rules c) (all-IsConsistent c).sub_lawful
          (&&-right _ _ fine) in
      (
        gs,
        ap
              (λ o. and_then o (
                apply_rule (build_children children) (local_name name) attrs
                  (text_content [] children) (find_rule (sub_rules c) (local_name name))))
              first
            ∙ rest,
        kept,
      )
  child-Goes (text t) c fs typed fine =
      let (hs, first, held) = build_text-Goes c t fs typed in
      let (gs, rest, kept) = para_text-Goes c t hs held in
      (gs, ap (λ o. and_then o (sub_text c t)) first ∙ rest, kept)
  child-Goes (cdata t) c fs typed fine = build_cdata-Goes c t fs typed
  child-Goes (other v) c fs typed fine = (fs, refl, typed)

-- `build` of a class comes to its end
build-returns :
    (c : ClassName) (attrs : List (Text × Text)) (ns : Nodes)
    → has_numbers attrs c && are_buildable ns c ≡ true
    → (v : Value) × (build c attrs ns ≡ some v)
unfolding build
build-returns c attrs ns fine =
    let (fs, started, typed) = start-IsTyped c attrs (&&-left _ _ fine) in
    let (gs, built, _) = children-Goes ns c fs typed (&&-right _ _ fine) in
    (
      object c gs,
      ap (λ o. and_then o (λ hs. and_then (build_children ns c hs) (λ is. some (object c is))))
            started
          ∙ ap (λ o. and_then o (λ is. some (object c is))) built,
    )

-- For each of the 78 classes, `build` makes an object if and only if the attributes that are read with `int` are
-- numbers and the elements that are read as texts have no child without a value, as elements are, in the element
-- and in all that is built below it. It raises nothing else: no attribute that is appended to is missing or is no list.
pub build-are_buildable :
    (c : ClassName) (attrs : List (Text × Text)) (ns : Nodes)
    → ((v : Value) × (build c attrs ns ≡ some v))
      ↔ (has_numbers attrs c && are_buildable ns c ≡ true)
build-are_buildable c attrs ns = ((λ (v, p). build-asked c attrs ns v p), build-returns c attrs ns)
