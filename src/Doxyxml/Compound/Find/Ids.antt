-- ===== src/Doxyxml/Compound/Find/Ids.antt =====
-- A search finds the object of the first element with its identifier.
use aegir_sdr.Common.{
  Bool, true, false, Option, none, some, List, [], ◌∷◌, ◌++◌, ◌≡◌, refl, sym, ap, ◌∙◌, Text, codes,
  eq_text, take, arith,
}
use aegir_sdr.Doxyxml.Dom.{Nodes, get_attr}
use aegir_sdr.Doxyxml.Compound.Classes.{
  ClassName, compounddef_type, sectiondef_type, memberdef_type,
}
use aegir_sdr.Doxyxml.Compound.Object.{and_then, Value, missing, Values, get_field}
use aegir_sdr.Doxyxml.Compound.Schema.{Attribute, text_attribute}
use aegir_sdr.Doxyxml.Compound.Schemas.{schema}
use aegir_sdr.Doxyxml.Compound.Build.{find_rule, sub_initial, sub_text, build}
use aegir_sdr.Doxyxml.Compound.Read.{Element, named, list_of}
use aegir_sdr.Doxyxml.Compound.Read.Frame.{IsSole}
use aegir_sdr.Doxyxml.Compound.Read.Children.{Built, built_nil, built_cons}
use aegir_sdr.Doxyxml.Compound.Read.Attributes.{
  is_absent, start-text, build_children-other, given_or,
}
use aegir_sdr.Doxyxml.Compound.Read.File.{build-parts, list-Built}
use aegir_sdr.Doxyxml.Compound.Find.{
  is_text, has_id, found_or, first_found, find_member, find_in_section, find_section, sections_of,
  find_in_compound,
}

abbrev is_same : Option Text → Text → Bool
is_same none refid = false
is_same (some s) refid = eq_text s refid

-- The element has the identifier.
abbrev tree_id : Text → Element → Bool
tree_id refid (attrs, ns) = is_same (get_attr attrs (codes "id")) refid

-- An element, with the class that is built from it.
abbrev pub Source : Type 0
Source = ClassName × Element

abbrev first_or : Bool → Source → Option Source → Option Source
first_or true x rest = some x
first_or false x rest = rest

abbrev or_else : Option Source → Option Source → Option Source
or_else none rest = rest
or_else (some x) rest = some x

-- The first of the `memberdef` elements with the identifier
abbrev first_member : Text → List Element → Option Source
first_member refid [] = none
first_member refid (e ∷ es) = first_or (tree_id refid e) (memberdef_type, e) (first_member refid es)

abbrev first_in_section : Text → Element → Option Source
first_in_section refid (attrs, ns) = first_member refid (named (codes "memberdef") ns)

abbrev first_in_sections : Text → List Element → Option Source
first_in_sections refid [] = none
first_in_sections refid (e ∷ es) = or_else (first_in_section refid e) (first_in_sections refid es)

-- The element of a compound, if it has the identifier, and otherwise the first `memberdef` of its
-- sections that has it.
abbrev pub first_in_compound : Text → Element → Option Source
first_in_compound refid (attrs, ns) =
    first_or (tree_id refid (attrs, ns)) (compounddef_type, (attrs, ns))
      (first_in_sections refid (named (codes "sectiondef") ns))

-- What is built from that element, if there is one; the outer `none` is an exception.
abbrev pub built_from : Option Source → Option (Option Value)
built_from none = some none
built_from (some (c, (attrs, ns))) = and_then (build c attrs ns) (λ v. some (some v))

-- A search that raises nothing, and finds the object of an element, or none.
abbrev pub Finds : Option (Option Value) → Option Source → Type 0
Finds o x = (r : Option Value) × (o ≡ some r) × (built_from x ≡ some r)

found_or-Finds :
    (b : Bool) (x : Source) (later : Option Source) (v : Value) (rest : Option (Option Value))
    → built_from (some x) ≡ some (some v)
    → Finds rest later
    → Finds (found_or b v rest) (first_or b x later)
found_or-Finds true x later v rest made searched = (some v, refl, made)
found_or-Finds false x later v rest made searched = searched

built_given : {A : Type 0} (o : Option Value) → and_then o (λ v. some (some v)) ≡ some none → A
built_given none p = ground arith
built_given (some v) p = ground arith

first_found-Finds :
    (r : Option Value) (x later : Option Source) (rest : Option (Option Value))
    → built_from x ≡ some r
    → Finds rest later
    → Finds (first_found r rest) (or_else x later)
first_found-Finds none none later rest made searched = searched
first_found-Finds none (some (c, (attrs, ns))) later rest made searched =
    built_given (build c attrs ns) made
first_found-Finds (some v) none later rest made searched = ground arith
first_found-Finds (some v) (some x) later rest made searched = (some v, refl, made)

id_text :
    (o : Option Text) (refid : Text)
    → and_then (given_or o (some missing)) (λ i. some (is_text i refid)) ≡ some (is_same o refid)
id_text none refid = refl
id_text (some s) refid = refl

-- The identifier of an object of a class that stores it as the classes here do
has_id-build :
    (c : ClassName) (before after : List Attribute)
    → (schema c).attributes ≡ before ++ text_attribute (codes "id") (codes "id") ∷ after
    → is_absent (codes "id") before ≡ true
    → is_absent (codes "id") after ≡ true
    → get_field (sub_initial c (schema c).initial) (codes "id") ≡ some missing
    → IsSole c none (codes "id")
    → (refid : Text) (attrs : List (Text × Text)) (ns : Nodes) (v : Value)
    → build c attrs ns ≡ some v
    → has_id refid v ≡ some (tree_id refid (attrs, ns))
unfolding eq_text
has_id-build c before after split none_before none_after empty sole refid attrs ns v p =
    let (fs, gs, started, built, kept) = build-parts c attrs ns v p in
    let held =
      build_children-other c (codes "id") sole ns fs gs built
      ∙ start-text c attrs fs (codes "id") (codes "id") before after refl split none_before
          none_after started
      ∙ ap (given_or (get_attr attrs (codes "id"))) empty in
    ap (λ o. and_then o (has_id refid)) (sym kept)
    ∙ ap (λ o. and_then o (λ i. some (is_text i refid))) held
    ∙ id_text (get_attr attrs (codes "id")) refid

member-has_id :
    (refid : Text) (attrs : List (Text × Text)) (ns : Nodes) (v : Value)
    → build memberdef_type attrs ns ≡ some v
    → has_id refid v ≡ some (tree_id refid (attrs, ns))
unfolding sub_text find_rule eq_text get_field
member-has_id =
    has_id-build memberdef_type (take 20 (schema memberdef_type).attributes) [] refl refl refl refl
      (record { sole = refl; apart = refl; plain = refl; plain_text = λ t hs. refl })

compound-has_id :
    (refid : Text) (attrs : List (Text × Text)) (ns : Nodes) (v : Value)
    → build compounddef_type attrs ns ≡ some v
    → has_id refid v ≡ some (tree_id refid (attrs, ns))
unfolding sub_text find_rule eq_text get_field
compound-has_id =
    has_id-build compounddef_type (take 2 (schema compounddef_type).attributes) [] refl refl refl
      refl (record { sole = refl; apart = refl; plain = refl; plain_text = λ t hs. refl })

find_member-Finds :
    (refid : Text) (es : List Element) (vs : Values)
    → Built memberdef_type es vs
    → Finds (find_member refid vs) (first_member refid es)
unfolding find_member
find_member-Finds refid _ _ built_nil = (none, refl, refl)
find_member-Finds refid _ _ (built_cons {attrs} {children} {v} {es} {vs} built rest) =
    let b = tree_id refid (attrs, children) in
    let (r, found, e) =
      found_or-Finds b (memberdef_type, (attrs, children)) (first_member refid es) v
        (find_member refid vs) (ap (λ o. and_then o (λ w. some (some w))) built)
        (find_member-Finds refid es vs rest) in
    (
      r,
      ap (λ o. and_then o (λ d. found_or d v (find_member refid vs)))
            (member-has_id refid attrs children v built)
          ∙ found,
      e,
    )

section-Finds :
    (refid : Text) (attrs : List (Text × Text)) (ns : Nodes) (v : Value)
    → build sectiondef_type attrs ns ≡ some v
    → Finds (find_in_section refid v) (first_in_section refid (attrs, ns))
unfolding sub_text find_rule eq_text get_field
section-Finds refid attrs ns v p =
    let (fs, gs, started, built, kept) = build-parts sectiondef_type attrs ns v p in
    let (ws, all, objects) =
      list-Built sectiondef_type memberdef_type (codes "memberdef")
        (record { sole = refl; apart = refl; plain = refl; plain_text = λ t hs. refl }) refl refl
        refl attrs ns fs gs refl started built in
    let (r, found, e) = find_member-Finds refid (named (codes "memberdef") ns) ws objects in
    (
      r,
      ap (λ o. and_then o (find_in_section refid)) (sym kept)
          ∙ ap (λ o. and_then (list_of o) (find_member refid)) all
          ∙ found,
      e,
    )

find_section-Finds :
    (refid : Text) (es : List Element) (vs : Values)
    → Built sectiondef_type es vs
    → Finds (find_section refid vs) (first_in_sections refid es)
unfolding find_section
find_section-Finds refid _ _ built_nil = (none, refl, refl)
find_section-Finds refid _ _ (built_cons {attrs} {children} {v} {es} {vs} built rest) =
    let (o, one, made) = section-Finds refid attrs children v built in
    let (r, found, e) =
      first_found-Finds o (first_in_section refid (attrs, children)) (first_in_sections refid es)
        (find_section refid vs) made (find_section-Finds refid es vs rest) in
    (r, ap (λ x. and_then x (λ y. first_found y (find_section refid vs))) one ∙ found, e)

-- On a compound that is built from an element, the search for an identifier raises nothing. If the element itself
-- has the identifier, the search finds the object of the compound; otherwise it finds the object that is
-- built from the first `memberdef` element with the identifier, in the order of the sections; and without
-- such an element it finds nothing.
pub find_in_compound-tree :
    (refid : Text) (attrs : List (Text × Text)) (ns : Nodes) (v : Value)
    → build compounddef_type attrs ns ≡ some v
    → (r : Option Value) × (find_in_compound refid v ≡ some r)
      × (built_from (first_in_compound refid (attrs, ns)) ≡ some r)
unfolding sub_text find_rule eq_text get_field
find_in_compound-tree refid attrs ns v p =
    let (fs, gs, started, built, kept) = build-parts compounddef_type attrs ns v p in
    let (ws, all, objects) =
      list-Built compounddef_type sectiondef_type (codes "sectiondef")
        (record { sole = refl; apart = refl; plain = refl; plain_text = λ t hs. refl }) refl refl
        refl attrs ns fs gs refl started built in
    let later = find_section-Finds refid (named (codes "sectiondef") ns) ws objects in
    let (r, found, e) =
      found_or-Finds (tree_id refid (attrs, ns)) (compounddef_type, (attrs, ns))
        (first_in_sections refid (named (codes "sectiondef") ns)) v (find_section refid ws)
        (ap (λ o. and_then o (λ w. some (some w))) p) later in
    (
      r,
      ap (λ o. and_then o (λ b. found_or b v (sections_of refid v)))
            (compound-has_id refid attrs ns v p)
          ∙ ap (λ o. found_or (tree_id refid (attrs, ns)) v (and_then o (sections_of refid)))
              (sym kept)
          ∙ ap
              (λ o.
                found_or (tree_id refid (attrs, ns)) v (and_then (list_of o) (find_section refid)))
              all
          ∙ found,
      e,
    )
