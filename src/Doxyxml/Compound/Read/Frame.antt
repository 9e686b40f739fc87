-- ===== src/Doxyxml/Compound/Read/Frame.antt =====
-- The children of an element that leave an attribute of its object alone.
use aegir_sdr.Common.{
  Bool, true, false, not, ◌||◌, Bool-cases, Option, Option-cases, none, some, inl, inr, List, [],
  ◌∷◌, ◌≡◌, refl, sym, ap, ◌∙◌, subst, Text, codes, eq_text, eq_text_iff, some_inj, all,
}
use aegir_sdr.Doxyxml.Base.Lookup.{clash}
use aegir_sdr.Doxyxml.Description.Breaks.{&&-left, &&-right}
use aegir_sdr.Doxyxml.Dom.{Node, element, text, cdata, other, local_name, text_content}
use aegir_sdr.Doxyxml.Compound.Classes.{ClassName}
use aegir_sdr.Doxyxml.Compound.Object.{
  and_then, Value, string, object, mixed_container, category_complex, category_simple, Fields,
  get_field, set_field, append_field,
}
use aegir_sdr.Doxyxml.Compound.Schema.{
  Rule, append_object, set_object, set_text, append_text, mixed_object, mixed_simple,
}
use aegir_sdr.Doxyxml.Compound.Schemas.{schema}
use aegir_sdr.Doxyxml.Compound.Build.{
  start, added_text, add_value, add_mixed_text, text_container, build_text, build_cdata, find_rule,
  build_object, apply_rule, sub_rules, sub_text, build_children, build_child,
}
use aegir_sdr.Doxyxml.Compound.Read.Stored.{
  none_clash, and_then-some, get_field-set_other, append_field-other,
}

-- The attribute that a rule writes.
abbrev pub written : Rule → Text
written (append_object f c) = f
written (set_object f c) = f
written (set_text f) = f
written (append_text f) = f
written (mixed_object c) = codes "content_"
written mixed_simple = codes "content_"

abbrev is_key : Option Text → Text → Bool
is_key none n = false
is_key (some k) n = eq_text n k

-- Elements of the name, if there is one.
abbrev pub is_named : Option Text → Node → Bool
is_named key (element name attrs children) = is_key key (local_name name)
is_named key (text t) = false
is_named key (cdata t) = false
is_named key (other v) = false

-- No rule writes the attribute, but the one for the name.
abbrev pub is_sole : Option Text → Text → List (Text × Rule) → Bool
is_sole key f rules = all (λ p. is_key key p.0 || not (eq_text (written p.1) f)) rules

abbrev pub is_apart : Text → Bool
is_apart f = all (λ g. not (eq_text g f)) (codes "content_" ∷ codes "valueOf_" ∷ [])

pub not-true : (b : Bool) → not b ≡ true → b ≡ false
not-true true h = clash h
not-true false h = refl

||-rest : (a b : Bool) → a ≡ false → a || b ≡ true → b ≡ true
||-rest a b e h = subst (λ x. x || b ≡ true) e h

find_rule-sole :
    (key : Option Text) (f : Text) (rules : List (Text × Rule)) (name : Text) (r : Rule)
    → is_sole key f rules ≡ true
    → is_key key name ≡ false
    → find_rule rules name ≡ some r
    → eq_text (written r) f ≡ false
unfolding find_rule
find_rule-sole key f [] name r sole away p = none_clash p
find_rule-sole key f ((n, q) ∷ rules) name r sole away p = elim (Bool-cases (eq_text n name)) [
  | inl e ↦
      let far = subst (λ t. is_key key t ≡ false) (sym ((eq_text_iff n name).0 e)) away in
      let free =
        not-true (eq_text (written q) f)
          (||-rest (is_key key n) (not (eq_text (written q) f)) far (&&-left _ _ sole)) in
      let found : some q ≡ some r =
        subst (λ b. elim b [ true ↦ some q | false ↦ find_rule rules name ] ≡ some r) e p in
      subst (λ s. eq_text (written s) f ≡ false) (some_inj found) free
  | inr e ↦
      find_rule-sole key f rules name r (&&-right _ _ sole) away
        (subst (λ b. elim b [ true ↦ some q | false ↦ find_rule rules name ] ≡ some r) e p)
]

-- What a build of an object has passed.
pub build_object-kept :
    (children : ClassName → Fields → Option Fields) (attrs : List (Text × Text)) (c : ClassName)
    (keep : Value → Option Fields) {gs : Fields}
    → build_object children attrs c keep ≡ some gs
    → (v : Value) × (and_then
          (start c attrs)
          (λ fs. and_then (children c fs) (λ hs. some (object c hs)))
        ≡ some v)
      × (keep v ≡ some gs)
unfolding build_object
build_object-kept children attrs c keep p =
    let (fs, started, q) = and_then-some (start c attrs) _ p in
    let (hs, built, kept) = and_then-some (children c fs) _ q in
    (
      object c hs,
      ap (λ o. and_then o (λ is. and_then (children c is) (λ js. some (object c js)))) started
          ∙ ap (λ o. and_then o (λ js. some (object c js))) built,
      kept,
    )

apply_rule-other :
    (children : ClassName → Fields → Option Fields) (name : Text) (attrs : List (Text × Text))
    (content : Option Text) (r : Rule) (fs gs : Fields) (f : Text)
    → eq_text (written r) f ≡ false
    → apply_rule children name attrs content (some r) fs ≡ some gs
    → get_field gs f ≡ get_field fs f
unfolding apply_rule
apply_rule-other children name attrs content (append_object g c) fs gs f h p =
    let (v, _, q) = build_object-kept children attrs c (append_field fs g) p in
    append_field-other fs gs g f v q h
apply_rule-other children name attrs content (set_object g c) fs gs f h p =
    let (v, _, q) = build_object-kept children attrs c (λ w. some (set_field fs g w)) p in
    subst (λ hs. get_field hs f ≡ get_field fs f) (some_inj q) (get_field-set_other fs g f v h)
apply_rule-other children name attrs content (set_text g) fs gs f h p =
    let (t, _, q) = and_then-some content (λ s. some (set_field fs g (string s))) p in
    subst (λ hs. get_field hs f ≡ get_field fs f) (some_inj q)
      (get_field-set_other fs g f (string t) h)
apply_rule-other children name attrs content (append_text g) fs gs f h p =
    let (t, _, q) = and_then-some content (λ s. append_field fs g (string s)) p in
    append_field-other fs gs g f (string t) q h
apply_rule-other children name attrs content (mixed_object c) fs gs f h p =
    let (v, _, q) =
      build_object-kept children attrs c
        (λ w. append_field fs (codes "content_") (mixed_container category_complex name w)) p in
    append_field-other fs gs (codes "content_") f (mixed_container category_complex name v) q h
apply_rule-other children name attrs content mixed_simple fs gs f h p =
    let (t, _, q) =
      and_then-some content
        (λ s. append_field fs (codes "content_") (mixed_container category_simple name (string s)))
        p in
    append_field-other fs gs (codes "content_") f (mixed_container category_simple name (string t))
      q h

add_value-other :
    (b : Bool) (t : Text) (fs gs : Fields) (f : Text)
    → eq_text (codes "valueOf_") f ≡ false
    → add_value b t fs ≡ some gs
    → get_field gs f ≡ get_field fs f
unfolding add_value
add_value-other false t fs gs f h p = ap (λ hs. get_field hs f) (sym (some_inj p))
add_value-other true t fs gs f h p =
    let (v, _, q) =
      and_then-some (added_text (get_field fs (codes "valueOf_")) t)
        (λ w. some (set_field fs (codes "valueOf_") w)) p in
    subst (λ hs. get_field hs f ≡ get_field fs f) (some_inj q)
      (get_field-set_other fs (codes "valueOf_") f v h)

add_mixed_text-other :
    (b : Bool) (t : Text) (fs gs : Fields) (f : Text)
    → eq_text (codes "content_") f ≡ false
    → add_mixed_text b t fs ≡ some gs
    → get_field gs f ≡ get_field fs f
unfolding add_mixed_text
add_mixed_text-other false t fs gs f h p = ap (λ hs. get_field hs f) (sym (some_inj p))
add_mixed_text-other true t fs gs f h p =
    append_field-other fs gs (codes "content_") f (text_container t) p h

-- An element to which at most a rule for another attribute applies.
apply_rule-free :
    (children : ClassName → Fields → Option Fields) (name : Text) (attrs : List (Text × Text))
    (content : Option Text) (key : Option Text) (rules : List (Text × Rule)) (fs gs : Fields)
    (f : Text)
    → is_sole key f rules ≡ true
    → is_key key name ≡ false
    → apply_rule children name attrs content (find_rule rules name) fs ≡ some gs
    → get_field gs f ≡ get_field fs f
unfolding apply_rule
apply_rule-free children name attrs content key rules fs gs f sole away p =
    elim (Option-cases (find_rule rules name)) [
      | inl e ↦
          let kept : some fs ≡ some gs =
            subst (λ o. apply_rule children name attrs content o fs ≡ some gs) e p in
          ap (λ hs. get_field hs f) (sym (some_inj kept))
      | inr (r, e) ↦
          apply_rule-other children name attrs content r fs gs f
            (find_rule-sole key f rules name r sole away e)
            (subst (λ o. apply_rule children name attrs content o fs ≡ some gs) e p)
    ]

-- A class that generated/compound.py adds nothing to, and an attribute that only the rule for the key writes.
pub record IsSole (c : ClassName) (key : Option Text) (f : Text) : Type 0 where
  pub sole : is_sole key f (schema c).rules ≡ true
  pub apart : is_apart f ≡ true
  pub plain : sub_rules c ≡ []
  pub plain_text : (t : Text) (fs : Fields) → sub_text c t fs ≡ some fs

module _ (c : ClassName) (key : Option Text) (f : Text) (is_sole : IsSole c key f) where
  no_content : eq_text (codes "content_") f ≡ false
  no_content = not-true _ (&&-left _ _ is_sole.apart)

  no_value : eq_text (codes "valueOf_") f ≡ false
  no_value = not-true _ (&&-left _ _ (&&-right _ _ is_sole.apart))

  -- What the subclass adds at an element is nothing.
  pub sub_rule-none : (name : Text) → find_rule (sub_rules c) name ≡ none
  unfolding find_rule
  sub_rule-none name = ap (λ rules. find_rule rules name) is_sole.plain

  pub build_child-other :
      (n : Node) (fs gs : Fields)
      → is_named key n ≡ false
      → build_child n c fs ≡ some gs
      → get_field gs f ≡ get_field fs f
  unfolding build_child build_text build_cdata apply_rule
  build_child-other (element name attrs children) fs gs away p =
      let (hs, first, second) =
        and_then-some
          (apply_rule (build_children children) (local_name name) attrs (text_content [] children)
            (find_rule (schema c).rules (local_name name)) fs)
          _ p in
      let kept : some hs ≡ some gs =
        subst
          (λ o.
            apply_rule (build_children children) (local_name name) attrs (text_content [] children)
              o hs
            ≡ some gs)
          (sub_rule-none (local_name name)) second in
      ap (λ is. get_field is f) (sym (some_inj kept))
      ∙ apply_rule-free (build_children children) (local_name name) attrs (text_content [] children)
          key (schema c).rules fs hs f is_sole.sole away first
  build_child-other (text t) fs gs away p =
      let (hs, first, second) = and_then-some (build_text c t fs) _ p in
      let (is, mixed, value) = and_then-some (add_mixed_text (schema c).mixed_text t fs) _ first in
      ap (λ js. get_field js f) (some_inj (sym second ∙ is_sole.plain_text t hs))
      ∙ (add_value-other (schema c).value_of t is hs f no_value value
          ∙ add_mixed_text-other (schema c).mixed_text t fs is f no_content mixed)
  build_child-other (cdata t) fs gs away p =
      add_value-other (schema c).value_of _ fs gs f no_value p
  build_child-other (other v) fs gs away p = ap (λ hs. get_field hs f) (sym (some_inj p))
