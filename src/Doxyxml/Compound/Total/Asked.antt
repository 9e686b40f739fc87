-- ===== src/Doxyxml/Compound/Total/Asked.antt =====
-- A builder that comes to the end of a tree has what it asks for.
use aegir_sdr.Common.{
  Bool, true, ◌&&◌, Option, none, some, List, [], ◌∷◌, ◌≡◌, refl, ap, Text, codes, all,
}
use aegir_sdr.Doxyxml.Dom.{
  Node, element, text, cdata, other, Nodes, nil, cons, get_attr, local_name, text_content,
}
use aegir_sdr.Doxyxml.Compound.Classes.{ClassName}
use aegir_sdr.Doxyxml.Compound.Object.{
  and_then, Value, string, number, mixed_container, category_simple, category_complex, Fields,
  set_field, append_field,
}
use aegir_sdr.Doxyxml.Compound.Schema.{
  Attribute, text_attribute, int_attribute, Rule, append_object, set_object, set_text, append_text,
  mixed_object, mixed_simple,
}
use aegir_sdr.Doxyxml.Compound.Schemas.{schema}
use aegir_sdr.Doxyxml.Compound.Build.{
  int_of, if_given, build_attribute, build_attributes, sub_initial, start, find_rule, build_object,
  apply_rule, sub_rules, build_children, build_child, build,
}
use aegir_sdr.Doxyxml.Compound.Read.Stored.{and_then-some}
use aegir_sdr.Doxyxml.Compound.Total.{
  is_given, is_number, is_fine, has_numbers, is_buildable_by, are_buildable, is_buildable,
}

both : {a b : Bool} → a ≡ true → b ≡ true → a && b ≡ true
both p q = cc

given : {A : Type 0} {o : Option A} {a : A} → o ≡ some a → is_given o ≡ true
given p = ap is_given p

if_given-number :
    (o : Option Text) (fs gs : Fields) (f : Text)
    → if_given o (λ v. and_then (int_of v) (λ n. some (set_field fs f (number n)))) fs ≡ some gs
    → is_number o ≡ true
if_given-number none fs gs f p = refl
if_given-number (some v) fs gs f p =
    let (n, read, _) = and_then-some (int_of v) (λ m. some (set_field fs f (number m))) p in
    given read

build_attribute-is_fine :
    (attrs : List (Text × Text)) (a : Attribute) (fs gs : Fields)
    → build_attribute attrs a fs ≡ some gs
    → is_fine attrs a ≡ true
unfolding build_attribute
build_attribute-is_fine attrs (text_attribute name f) fs gs p = refl
build_attribute-is_fine attrs (int_attribute name f) fs gs p =
    if_given-number (get_attr attrs name) fs gs f p

build_attributes-is_fine :
    (attrs : List (Text × Text)) (as_ : List Attribute) (fs gs : Fields)
    → build_attributes attrs as_ fs ≡ some gs
    → all (is_fine attrs) as_ ≡ true
unfolding build_attributes
build_attributes-is_fine attrs [] fs gs p = refl
build_attributes-is_fine attrs (a ∷ as_) fs gs p =
    let (hs, first, rest) =
      and_then-some (build_attribute attrs a fs) (build_attributes attrs as_) p in
    both (build_attribute-is_fine attrs a fs hs first)
      (build_attributes-is_fine attrs as_ hs gs rest)

pub start-has_numbers :
    (c : ClassName) (attrs : List (Text × Text)) (fs : Fields)
    → start c attrs ≡ some fs
    → has_numbers attrs c ≡ true
unfolding start
start-has_numbers c attrs fs p =
    let (gs, built, _) =
      and_then-some
        (build_attributes attrs (schema c).attributes (sub_initial c (schema c).initial)) _ p in
    build_attributes-is_fine attrs (schema c).attributes (sub_initial c (schema c).initial) gs built

-- A loop over children that comes to its end has what the class asks for.
abbrev Asks : (ClassName → Fields → Option Fields) → (ClassName → Bool) → Type 0
Asks children asks = (d : ClassName) (fs gs : Fields) → children d fs ≡ some gs → asks d ≡ true

module _ (children : ClassName → Fields → Option Fields) (asks : ClassName → Bool)
    (asked : Asks children asks) (name : Text) (attrs : List (Text × Text))
    (content : Option Text) where
  build_object-asks :
      (d : ClassName) (keep : Value → Option Fields) (gs : Fields)
      → build_object children attrs d keep ≡ some gs
      → has_numbers attrs d && asks d ≡ true
  unfolding build_object
  build_object-asks d keep gs p =
      let (fs, started, q) = and_then-some (start d attrs) _ p in
      let (hs, built, _) = and_then-some (children d fs) _ q in
      both (start-has_numbers d attrs fs started) (asked d fs hs built)

  apply_rule-asks :
      (r : Option Rule) (fs gs : Fields)
      → apply_rule children name attrs content r fs ≡ some gs
      → is_buildable_by asks attrs content r ≡ true
  unfolding apply_rule
  apply_rule-asks none fs gs p = refl
  apply_rule-asks (some (append_object f d)) fs gs p = build_object-asks d (append_field fs f) gs p
  apply_rule-asks (some (set_object f d)) fs gs p =
      build_object-asks d (λ v. some (set_field fs f v)) gs p
  apply_rule-asks (some (set_text f)) fs gs p =
      let (t, read, _) = and_then-some content (λ s. some (set_field fs f (string s))) p in
      given read
  apply_rule-asks (some (append_text f)) fs gs p =
      let (t, read, _) = and_then-some content (λ s. append_field fs f (string s)) p in given read
  apply_rule-asks (some (mixed_object d)) fs gs p =
      build_object-asks d
        (λ v. append_field fs (codes "content_") (mixed_container category_complex name v)) gs p
  apply_rule-asks (some mixed_simple) fs gs p =
      let (t, read, _) =
        and_then-some content
          (λ s.
            append_field fs (codes "content_") (mixed_container category_simple name (string s)))
          p in
      given read

mutual
  unfolding build_children build_child are_buildable is_buildable

  children-asked :
      (ns : Nodes) (c : ClassName) (fs gs : Fields)
      → build_children ns c fs ≡ some gs
      → are_buildable ns c ≡ true
  children-asked nil c fs gs p = refl
  children-asked (cons n ns) c fs gs p =
      let (hs, first, rest) = and_then-some (build_child n c fs) (build_children ns c) p in
      both (child-asked n c fs hs first) (children-asked ns c hs gs rest)

  child-asked :
      (n : Node) (c : ClassName) (fs gs : Fields)
      → build_child n c fs ≡ some gs
      → is_buildable n c ≡ true
  child-asked (element name attrs children) c fs gs p =
      let (hs, first, rest) =
        and_then-some
          (apply_rule (build_children children) (local_name name) attrs (text_content [] children)
            (find_rule (schema c).rules (local_name name)) fs)
          _ p in
      both
        (apply_rule-asks (build_children children) (are_buildable children)
          (λ d is js q. children-asked children d is js q) (local_name name) attrs
          (text_content [] children) (find_rule (schema c).rules (local_name name)) fs hs first)
        (apply_rule-asks (build_children children) (are_buildable children)
          (λ d is js q. children-asked children d is js q) (local_name name) attrs
          (text_content [] children) (find_rule (sub_rules c) (local_name name)) hs gs rest)
  child-asked (text t) c fs gs p = refl
  child-asked (cdata t) c fs gs p = refl
  child-asked (other v) c fs gs p = refl

pub build-asked :
    (c : ClassName) (attrs : List (Text × Text)) (ns : Nodes) (v : Value)
    → build c attrs ns ≡ some v
    → has_numbers attrs c && are_buildable ns c ≡ true
unfolding build
build-asked c attrs ns v p =
    let (fs, started, q) = and_then-some (start c attrs) _ p in
    let (gs, built, _) = and_then-some (build_children ns c fs) _ q in
    both (start-has_numbers c attrs fs started) (children-asked ns c fs gs built)
