-- ===== src/Doxyxml/Compound/Read/Last.antt =====
-- What the last child of a name leaves in the attribute of its rule, where the rule sets it.
use aegir_sdr.Common.{some, List, [], ◌≡◌, sym, ap, ◌∙◌, subst, Text, some_inj}
use aegir_sdr.Doxyxml.Dom.{Node, Nodes, nil, cons, text_content}
use aegir_sdr.Doxyxml.Compound.Classes.{ClassName}
use aegir_sdr.Doxyxml.Compound.Object.{Value, string, Fields, get_field, set_field}
use aegir_sdr.Doxyxml.Compound.Schema.{set_object, set_text}
use aegir_sdr.Doxyxml.Compound.Schemas.{schema}
use aegir_sdr.Doxyxml.Compound.Build.{find_rule, apply_rule, build_children, build_child}
use aegir_sdr.Doxyxml.Compound.Read.Stored.{and_then-some, get_field-set_same}
use aegir_sdr.Doxyxml.Compound.Read.Frame.{IsSole, build_object-kept, build_child-other}
use aegir_sdr.Doxyxml.Compound.Read.{Element, add_named, named, last_text, content_or_empty}
use aegir_sdr.Doxyxml.Compound.Read.Children.{
  LastBuilt, last_nil, last_cons, add_named-away, add_named-at, ByName, at_name, away_from, by_name,
  build_child-named, build_object-build,
}

module _ (c : ClassName) (k f : Text) (is_sole : IsSole c (some k) f) where
  step_object :
      (n : Node)
      → ByName k n
      → (d : ClassName) → find_rule (schema c).rules k ≡ some (set_object f d)
      → (fs gs : Fields) (u : Value) → build_child n c fs ≡ some gs
      → get_field fs f ≡ some u
      → (v : Value) × (get_field gs f ≡ some v)
        × ((es : List Element) (w : Value)
            → LastBuilt d v es w
            → LastBuilt d u (add_named k n es) w)
  unfolding apply_rule
  step_object _ (at_name name attrs children same) d found fs gs u p held =
      let done =
        build_child-named c k f is_sole name attrs children fs gs (set_object f d) found same p in
      let (v, built, kept) =
        build_object-kept (build_children children) attrs d (λ w. some (set_field fs f w)) done in
      (
        v,
        subst (λ hs. get_field hs f ≡ some v) (some_inj kept) (get_field-set_same fs f v),
        λ es w rest.
            subst (λ xs. LastBuilt d u xs w) (sym (add_named-at k name attrs children es same))
              (last_cons (build_object-build c k f is_sole attrs children d v built) rest),
      )
  step_object _ (away_from n away) d found fs gs u p held = (
    u,
    build_child-other c (some k) f is_sole n fs gs away p ∙ held,
    λ es w rest. subst (λ xs. LastBuilt d u xs w) (sym (add_named-away k n es away)) rest,
  )

  -- A rule that sets an object leaves the object of the last child of the name.
  pub build_children-set_object :
      (ns : Nodes) (d : ClassName) (fs gs : Fields) (u : Value)
      → find_rule (schema c).rules k ≡ some (set_object f d)
      → build_children ns c fs ≡ some gs
      → get_field fs f ≡ some u
      → (w : Value) × (get_field gs f ≡ some w) × LastBuilt d u (named k ns) w
  unfolding build_children
  build_children-set_object nil d fs gs u found p held =
      (u, ap (λ hs. get_field hs f) (sym (some_inj p)) ∙ held, last_nil)
  build_children-set_object (cons n ns) d fs gs u found p held =
      let (hs, first, rest) = and_then-some (build_child n c fs) (build_children ns c) p in
      let (v, now, extend) = step_object n (by_name k n) d found fs hs u first held in
      let (w, all, built) = build_children-set_object ns d hs gs v found rest now in
      (w, all, extend (named k ns) w built)

  step_text :
      (n : Node)
      → ByName k n
      → find_rule (schema c).rules k ≡ some (set_text f)
      → (fs gs : Fields) (t : Text) → build_child n c fs ≡ some gs
      → get_field fs f ≡ some (string t)
      → (s : Text) × (get_field gs f ≡ some (string s))
        × ((es : List Element) → last_text s es ≡ last_text t (add_named k n es))
  unfolding apply_rule
  step_text _ (at_name name attrs children same) found fs gs t p held =
      let done =
        build_child-named c k f is_sole name attrs children fs gs (set_text f) found same p in
      let (s, read, kept) =
        and_then-some (text_content [] children) (λ v. some (set_field fs f (string v))) done in
      (
        s,
        subst (λ hs. get_field hs f ≡ some (string s)) (some_inj kept)
            (get_field-set_same fs f (string s)),
        λ es.
            ap (λ o. last_text (content_or_empty o) es) (sym read)
            ∙ ap (last_text t) (sym (add_named-at k name attrs children es same)),
      )
  step_text _ (away_from n away) found fs gs t p held = (
    t,
    build_child-other c (some k) f is_sole n fs gs away p ∙ held,
    λ es. ap (last_text t) (sym (add_named-away k n es away)),
  )

  -- A rule that sets a text leaves the text of the last child of the name.
  pub build_children-set_text :
      (ns : Nodes) (fs gs : Fields) (t : Text)
      → find_rule (schema c).rules k ≡ some (set_text f)
      → build_children ns c fs ≡ some gs
      → get_field fs f ≡ some (string t)
      → get_field gs f ≡ some (string (last_text t (named k ns)))
  unfolding build_children
  build_children-set_text nil fs gs t found p held =
      ap (λ hs. get_field hs f) (sym (some_inj p)) ∙ held
  build_children-set_text (cons n ns) fs gs t found p held =
      let (hs, first, rest) = and_then-some (build_child n c fs) (build_children ns c) p in
      let (s, now, extend) = step_text n (by_name k n) found fs hs t first held in
      build_children-set_text ns hs gs s found rest now
      ∙ ap (λ v. some (string v)) (extend (named k ns))
