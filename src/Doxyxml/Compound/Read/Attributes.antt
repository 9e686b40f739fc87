-- ===== src/Doxyxml/Compound/Read/Attributes.antt =====
-- What `buildAttributes` leaves in an attribute, and what the children do not change.
use aegir_sdr.Common.{
  Bool, true, false, not, Option, none, some, List, [], ◌∷◌, ◌++◌, ◌≡◌, refl, sym, ap, ◌∙◌, subst,
  Text, codes, eq_text, some_inj, all,
}
use aegir_sdr.Doxyxml.Description.Breaks.{&&-left, &&-right}
use aegir_sdr.Doxyxml.Dom.{Node, Nodes, nil, cons, element, text, cdata, other, get_attr}
use aegir_sdr.Doxyxml.Compound.Classes.{ClassName}
use aegir_sdr.Doxyxml.Compound.Object.{
  and_then, Value, string, number, Fields, get_field, set_field,
}
use aegir_sdr.Doxyxml.Compound.Schema.{Attribute, text_attribute, int_attribute}
use aegir_sdr.Doxyxml.Compound.Schemas.{schema}
use aegir_sdr.Doxyxml.Compound.Build.{
  int_of, if_given, build_attribute, build_attributes, reset_value, sub_initial, start,
  build_children, build_child,
}
use aegir_sdr.Doxyxml.Compound.Read.Stored.{and_then-some, get_field-set_same, get_field-set_other}
use aegir_sdr.Doxyxml.Compound.Read.Frame.{not-true, is_named, IsSole, build_child-other}

abbrev pub target : Attribute → Text
target (text_attribute name f) = f
target (int_attribute name f) = f

-- No attribute of the list is stored in the attribute of the object.
abbrev pub is_absent : Text → List Attribute → Bool
is_absent f as_ = all (λ a. not (eq_text (target a) f)) as_

never_named : (n : Node) → is_named none n ≡ false
never_named (element name attrs children) = refl
never_named (text t) = refl
never_named (cdata t) = refl
never_named (other v) = refl

if_given-other :
    (o : Option Text) (keep : Text → Option Fields) (fs gs : Fields) (f : Text)
    → ((v : Text) → keep v ≡ some gs → get_field gs f ≡ get_field fs f)
    → if_given o keep fs ≡ some gs
    → get_field gs f ≡ get_field fs f
if_given-other none keep fs gs f far p = ap (λ hs. get_field hs f) (sym (some_inj p))
if_given-other (some v) keep fs gs f far p = far v p

set_field-other :
    (fs gs : Fields) (g f : Text) (v : Value)
    → eq_text g f ≡ false
    → some (set_field fs g v) ≡ some gs
    → get_field gs f ≡ get_field fs f
set_field-other fs gs g f v h q =
    subst (λ hs. get_field hs f ≡ get_field fs f) (some_inj q) (get_field-set_other fs g f v h)

build_attribute-other :
    (attrs : List (Text × Text)) (a : Attribute) (fs gs : Fields) (f : Text)
    → eq_text (target a) f ≡ false
    → build_attribute attrs a fs ≡ some gs
    → get_field gs f ≡ get_field fs f
unfolding build_attribute
build_attribute-other attrs (text_attribute name g) fs gs f h p =
    if_given-other (get_attr attrs name) (λ v. some (set_field fs g (string v))) fs gs f
      (λ v q. set_field-other fs gs g f (string v) h q) p
build_attribute-other attrs (int_attribute name g) fs gs f h p =
    if_given-other (get_attr attrs name)
      (λ v. and_then (int_of v) (λ n. some (set_field fs g (number n)))) fs gs f
      (λ v q.
        let (n, _, r) = and_then-some (int_of v) (λ m. some (set_field fs g (number m))) q in
        set_field-other fs gs g f (number n) h r)
      p

build_attributes-other :
    (attrs : List (Text × Text)) (as_ : List Attribute) (fs gs : Fields) (f : Text)
    → is_absent f as_ ≡ true
    → build_attributes attrs as_ fs ≡ some gs
    → get_field gs f ≡ get_field fs f
unfolding build_attributes
build_attributes-other attrs [] fs gs f h p = ap (λ hs. get_field hs f) (sym (some_inj p))
build_attributes-other attrs (a ∷ as_) fs gs f h p =
    let (hs, first, rest) =
      and_then-some (build_attribute attrs a fs) (build_attributes attrs as_) p in
    build_attributes-other attrs as_ hs gs f (&&-right _ _ h) rest
    ∙ build_attribute-other attrs a fs hs f (not-true (eq_text (target a) f) (&&-left _ _ h)) first

-- The value of an attribute of the element, or what stood there before.
abbrev pub given_or : Option Text → Option Value → Option Value
given_or none o = o
given_or (some v) o = some (string v)

if_given-same :
    (o : Option Text) (fs gs : Fields) (f : Text)
    → if_given o (λ v. some (set_field fs f (string v))) fs ≡ some gs
    → get_field gs f ≡ given_or o (get_field fs f)
if_given-same none fs gs f p = ap (λ hs. get_field hs f) (sym (some_inj p))
if_given-same (some v) fs gs f p =
    subst (λ hs. get_field hs f ≡ some (string v)) (some_inj p) (get_field-set_same fs f (string v))

build_attributes-text :
    (attrs : List (Text × Text)) (before after : List Attribute) (name f : Text) (fs gs : Fields)
    → is_absent f before ≡ true
    → is_absent f after ≡ true
    → build_attributes attrs (before ++ text_attribute name f ∷ after) fs ≡ some gs
    → get_field gs f ≡ given_or (get_attr attrs name) (get_field fs f)
unfolding build_attributes build_attribute
build_attributes-text attrs [] after name f fs gs none_before none_after p =
    let (hs, first, rest) =
      and_then-some (build_attribute attrs (text_attribute name f) fs)
        (build_attributes attrs after) p in
    build_attributes-other attrs after hs gs f none_after rest
    ∙ if_given-same (get_attr attrs name) fs hs f first
build_attributes-text attrs (a ∷ before) after name f fs gs none_before none_after p =
    let (hs, first, rest) =
      and_then-some (build_attribute attrs a fs)
        (build_attributes attrs (before ++ text_attribute name f ∷ after)) p in
    build_attributes-text attrs before after name f hs gs (&&-right _ _ none_before) none_after rest
    ∙ ap (given_or (get_attr attrs name)) (
        build_attribute-other attrs a fs hs f
          (not-true (eq_text (target a) f) (&&-left _ _ none_before)) first)

reset_value-other :
    (b : Bool) (fs : Fields) (f : Text)
    → eq_text (codes "valueOf_") f ≡ false
    → get_field (reset_value b fs) f ≡ get_field fs f
reset_value-other true fs f h = get_field-set_other fs (codes "valueOf_") f (string []) h
reset_value-other false fs f h = refl

start-parts :
    (c : ClassName) (attrs : List (Text × Text)) (gs : Fields) (f : Text)
    → eq_text (codes "valueOf_") f ≡ false
    → start c attrs ≡ some gs
    → (fs : Fields) × (build_attributes attrs
          (schema c).attributes
          (sub_initial c (schema c).initial)
        ≡ some fs)
      × (get_field gs f ≡ get_field fs f)
unfolding start
start-parts c attrs gs f h p =
    let (fs, built, kept) =
      and_then-some
        (build_attributes attrs (schema c).attributes (sub_initial c (schema c).initial)) _ p in
    (
      fs,
      built,
      ap (λ hs. get_field hs f) (sym (some_inj kept))
          ∙ reset_value-other (schema c).value_of fs f h,
    )

-- An attribute of the object that no attribute of the element is stored in.
pub start-other :
    (c : ClassName) (attrs : List (Text × Text)) (gs : Fields) (f : Text)
    → eq_text (codes "valueOf_") f ≡ false
    → is_absent f (schema c).attributes ≡ true
    → start c attrs ≡ some gs
    → get_field gs f ≡ get_field (sub_initial c (schema c).initial) f
start-other c attrs gs f h absent p =
    let (fs, built, kept) = start-parts c attrs gs f h p in
    kept ∙ build_attributes-other attrs (schema c).attributes _ fs f absent built

pub start-text :
    (c : ClassName) (attrs : List (Text × Text)) (gs : Fields) (name f : Text)
    (before after : List Attribute)
    → eq_text (codes "valueOf_") f ≡ false
    → (schema c).attributes ≡ before ++ text_attribute name f ∷ after
    → is_absent f before ≡ true
    → is_absent f after ≡ true
    → start c attrs ≡ some gs
    → get_field gs f
      ≡ given_or (get_attr attrs name) (get_field (sub_initial c (schema c).initial) f)
start-text c attrs gs name f before after h split none_before none_after p =
    let (fs, built, kept) = start-parts c attrs gs f h p in
    kept
    ∙ build_attributes-text attrs before after name f _ fs none_before none_after (
        subst (λ as_. build_attributes attrs as_ (sub_initial c (schema c).initial) ≡ some fs) split
          built)

-- No child changes an attribute of the object that no rule writes.
pub build_children-other :
    (c : ClassName) (f : Text)
    → IsSole c none f
    → (ns : Nodes) (fs gs : Fields) → build_children ns c fs ≡ some gs
    → get_field gs f ≡ get_field fs f
unfolding build_children
build_children-other c f free nil fs gs p = ap (λ hs. get_field hs f) (sym (some_inj p))
build_children-other c f free (cons n ns) fs gs p =
    let (hs, first, rest) = and_then-some (build_child n c fs) (build_children ns c) p in
    build_children-other c f free ns hs gs rest
    ∙ build_child-other c none f free n fs hs (never_named n) first
