-- ===== src/Doxyxml/Compound/Read/Children.antt =====
-- What the children of a name leave in the attribute of their rule.
use aegir_sdr.Common.{
  true, false, Bool-cases, some, inl, inr, List, [], ◌∷◌, ◌≡◌, refl, sym, ap, ◌∙◌, subst, Text,
  eq_text, some_inj, eq_text_iff,
}
use aegir_sdr.Doxyxml.Dom.{
  Node, element, text, cdata, other, Nodes, nil, cons, local_name, text_content,
}
use aegir_sdr.Doxyxml.Compound.Classes.{ClassName}
use aegir_sdr.Doxyxml.Compound.Object.{
  and_then, Value, list, object, Values, ◌+++◌, Fields, get_field, append_field,
}
use aegir_sdr.Doxyxml.Compound.Schema.{Rule, append_object}
use aegir_sdr.Doxyxml.Compound.Schemas.{schema}
use aegir_sdr.Doxyxml.Compound.Build.{
  find_rule, apply_rule, build, start, build_children, build_child,
}
use aegir_sdr.Doxyxml.Compound.Read.Stored.{and_then-some, append_field-same}
use aegir_sdr.Doxyxml.Compound.Read.Frame.{
  is_named, IsSole, sub_rule-none, build_object-kept, build_child-other,
}
use aegir_sdr.Doxyxml.Compound.Read.{Element, add_named, named}

-- The values are the objects that are built from the elements.
pub data Built (c : ClassName) : List Element → Values → Type 0 where
  built_nil : Built c [] Values.nil
  built_cons :
      {attrs : List (Text × Text)} {children : Nodes} {v : Value} {es : List Element} {vs : Values}
      → build c attrs children ≡ some v
      → Built c es vs
      → Built c ((attrs, children) ∷ es) (Values.cons v vs)

-- The value is the object that is built from the last of the elements, or the first value where there is none.
pub data LastBuilt (c : ClassName) : Value → List Element → Value → Type 0 where
  last_nil : {v : Value} → LastBuilt c v [] v
  last_cons :
      {attrs : List (Text × Text)} {children : Nodes} {u v w : Value} {es : List Element}
      → build c attrs children ≡ some v
      → LastBuilt c v es w
      → LastBuilt c u ((attrs, children) ∷ es) w

append_assoc : (a b d : Values) → (a +++ b) +++ d ≡ a +++ (b +++ d)
append_assoc Values.nil b d = refl
append_assoc (Values.cons v a) b d = ap (Values.cons v) (append_assoc a b d)

append_none : (a : Values) → a +++ Values.nil ≡ a
append_none Values.nil = refl
append_none (Values.cons v a) = ap (Values.cons v) (append_none a)

pub add_named-away :
    (k : Text) (n : Node) (es : List Element) → is_named (some k) n ≡ false → add_named k n es ≡ es
add_named-away k (element name attrs children) es away = rw away refl
add_named-away k (text t) es away = refl
add_named-away k (cdata t) es away = refl
add_named-away k (other v) es away = refl

pub add_named-at :
    (k name : Text) (attrs : List (Text × Text)) (children : Nodes) (es : List Element)
    → eq_text (local_name name) k ≡ true
    → add_named k (element name attrs children) es ≡ (attrs, children) ∷ es
add_named-at k name attrs children es same = rw same refl

-- A child has the name, or it has not.
pub data ByName (k : Text) : Node → Type 0 where
  at_name :
      (name : Text) (attrs : List (Text × Text)) (children : Nodes)
      → eq_text (local_name name) k ≡ true
      → ByName k (element name attrs children)
  away_from : (n : Node) → is_named (some k) n ≡ false → ByName k n

pub by_name : (k : Text) (n : Node) → ByName k n
by_name k (element name attrs children) = elim (Bool-cases (eq_text (local_name name) k)) [
  | inl e ↦ at_name name attrs children e
  | inr e ↦ away_from (element name attrs children) e
]
by_name k (text t) = away_from (text t) refl
by_name k (cdata t) = away_from (cdata t) refl
by_name k (other v) = away_from (other v) refl

module _ (c : ClassName) (k f : Text) (is_sole : IsSole c (some k) f) where
  -- A child of the name is what the rule for the name does.
  pub build_child-named :
      (name : Text) (attrs : List (Text × Text)) (children : Nodes) (fs gs : Fields) (r : Rule)
      → find_rule (schema c).rules k ≡ some r
      → eq_text (local_name name) k ≡ true
      → build_child (element name attrs children) c fs ≡ some gs
      → apply_rule
          (build_children children)
          (local_name name)
          attrs
          (text_content [] children)
          (some r)
          fs
        ≡ some gs
  unfolding build_child apply_rule
  build_child-named name attrs children fs gs r found same p =
      let (hs, first, second) =
        and_then-some
          (apply_rule (build_children children) (local_name name) attrs (text_content [] children)
            (find_rule (schema c).rules (local_name name)) fs)
          _ p in
      let kept : some hs ≡ some gs =
        subst
          (λ o.
            apply_rule (build_children children) (local_name name) attrs (text_content [] children)
              o hs
            ≡ some gs)
          (sub_rule-none c (some k) f is_sole (local_name name)) second in
      let at_k =
        subst (λ n. find_rule (schema c).rules n ≡ some r)
          (sym ((eq_text_iff (local_name name) k).0 same)) found in
      subst
        (λ o.
          apply_rule (build_children children) (local_name name) attrs (text_content [] children) o
            fs
          ≡ some hs)
        at_k first
      ∙ kept

  pub build_object-build :
      (attrs : List (Text × Text)) (children : Nodes) (d : ClassName) (v : Value)
      → and_then
          (start d attrs)
          (λ fs. and_then (build_children children d fs) (λ hs. some (object d hs)))
        ≡ some v
      → build d attrs children ≡ some v
  unfolding build
  build_object-build attrs children d v p = p

  child_appended :
      (name : Text) (attrs : List (Text × Text)) (children : Nodes) (fs gs : Fields) (d : ClassName)
      (vs : Values)
      → find_rule (schema c).rules k ≡ some (append_object f d)
      → eq_text (local_name name) k ≡ true
      → build_child (element name attrs children) c fs ≡ some gs
      → get_field fs f ≡ some (list vs)
      → (v : Value) × (build d attrs children ≡ some v)
        × (get_field gs f ≡ some (list (vs +++ Values.cons v Values.nil)))
  unfolding apply_rule
  child_appended name attrs children fs gs d vs found same p held =
      let done = build_child-named name attrs children fs gs (append_object f d) found same p in
      let (v, built, kept) =
        build_object-kept (build_children children) attrs d (append_field fs f) done in
      (v, build_object-build attrs children d v built, append_field-same fs gs f v vs kept held)

  step_appended :
      (n : Node)
      → ByName k n
      → (d : ClassName) → find_rule (schema c).rules k ≡ some (append_object f d)
      → (fs gs : Fields) (vs : Values) → build_child n c fs ≡ some gs
      → get_field fs f ≡ some (list vs)
      → (us : Values) × (get_field gs f ≡ some (list (vs +++ us)))
        × ((es : List Element) (ws : Values)
            → Built d es ws
            → Built d (add_named k n es) (us +++ ws))
  step_appended _ (at_name name attrs children same) d found fs gs vs p held =
      let (v, built, now) = child_appended name attrs children fs gs d vs found same p held in
      (
        Values.cons v Values.nil,
        now,
        λ es ws rest.
            subst (λ xs. Built d xs (Values.cons v ws))
              (sym (add_named-at k name attrs children es same)) (built_cons built rest),
      )
  step_appended _ (away_from n away) d found fs gs vs p held = (
    Values.nil,
    build_child-other c (some k) f is_sole n fs gs away p
        ∙ (held ∙ ap (λ us. some (list us)) (sym (append_none vs))),
    λ es ws rest. subst (λ xs. Built d xs ws) (sym (add_named-away k n es away)) rest,
  )

  -- Where the rule for a name appends objects, and no other rule writes its attribute, `build` leaves in the
  -- attribute what stood there, with the objects of all children of the name behind it, in their order.
  pub build_children-append_object :
      (ns : Nodes) (d : ClassName) (fs gs : Fields) (vs : Values)
      → find_rule (schema c).rules k ≡ some (append_object f d)
      → build_children ns c fs ≡ some gs
      → get_field fs f ≡ some (list vs)
      → (ws : Values) × (get_field gs f ≡ some (list (vs +++ ws))) × Built d (named k ns) ws
  unfolding build_children
  build_children-append_object nil d fs gs vs found p held = (
    Values.nil,
    ap (λ hs. get_field hs f) (sym (some_inj p))
        ∙ (held ∙ ap (λ us. some (list us)) (sym (append_none vs))),
    built_nil,
  )
  build_children-append_object (cons n ns) d fs gs vs found p held =
      let (hs, first, rest) = and_then-some (build_child n c fs) (build_children ns c) p in
      let (us, now, extend) = step_appended n (by_name k n) d found fs hs vs first held in
      let (ws, all, built) = build_children-append_object ns d hs gs (vs +++ us) found rest now in
      (
        us +++ ws,
        all ∙ ap (λ xs. some (list xs)) (append_assoc vs us ws),
        extend (named k ns) ws built,
      )
