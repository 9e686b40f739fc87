-- ===== src/Doxyxml/Compound/Read/File.antt =====
-- What is read of the objects of a file is what its tree says.
use aegir_sdr.Common.{
  true, false, Option, none, some, List, [], ◌∷◌, ◌≡◌, refl, sym, ap, ◌∙◌, Text, codes, eq_text,
  take, drop,
}
use aegir_sdr.Doxyxml.Dom.{Nodes, get_attr}
use aegir_sdr.Doxyxml.Compound.Classes.{
  ClassName, doxygen_type, compounddef_type, sectiondef_type, memberdef_type, ref_type,
}
use aegir_sdr.Doxyxml.Compound.Object.{
  and_then, Value, missing, list, object, Values, Fields, get_field,
}
use aegir_sdr.Doxyxml.Compound.Schema.{append_object}
use aegir_sdr.Doxyxml.Compound.Schemas.{schema}
use aegir_sdr.Doxyxml.Compound.Build.{
  find_rule, sub_initial, sub_text, start, build_children, build, parse,
}
use aegir_sdr.Doxyxml.DoxyIndex.{MemberDef}
use aegir_sdr.Doxyxml.Compound.Text.{text_of}
use aegir_sdr.Doxyxml.Compound.Read.{
  Element, named, last_element, read_all, read_member, read_section, read_refid, read_compound,
  read_file, tree_all, tree_member, tree_section, tree_refid, tree_compound, tree_file, member_of,
  compound_of, list_of, read_list,
}
use aegir_sdr.Doxyxml.Compound.Read.Stored.{and_then-some}
use aegir_sdr.Doxyxml.Compound.Read.Frame.{IsSole}
use aegir_sdr.Doxyxml.Compound.Read.Children.{
  Built, built_nil, built_cons, LastBuilt, last_nil, last_cons, build_children-append_object,
}
use aegir_sdr.Doxyxml.Compound.Read.Last.{build_children-set_object, build_children-set_text}
use aegir_sdr.Doxyxml.Compound.Read.Attributes.{
  is_absent, start-other, start-text, build_children-other, given_or,
}

-- An object that is built went through `start` and through its children.
pub build-parts :
    (c : ClassName) (attrs : List (Text × Text)) (ns : Nodes) (v : Value)
    → build c attrs ns ≡ some v
    → (fs : Fields) × (gs : Fields) × (start c attrs ≡ some fs)
      × (build_children ns c fs ≡ some gs)
      × (some (object c gs) ≡ some v)
unfolding build
build-parts c attrs ns v p =
    let (fs, started, q) = and_then-some (start c attrs) _ p in
    let (gs, built, kept) = and_then-some (build_children ns c fs) _ q in
    (fs, gs, started, built, kept)

read_all-Built :
    {A : Type 0} (c : ClassName) (read : Value → Option A) (tree : Element → Option A)
    → ((attrs : List (Text × Text)) (ns : Nodes) (v : Value)
        → build c attrs ns ≡ some v
        → read v ≡ tree (attrs, ns))
    → (es : List Element) (vs : Values) → Built c es vs
    → read_all read vs ≡ tree_all tree es
read_all-Built c read tree same _ _ built_nil = refl
read_all-Built c read tree same _ _ (built_cons {attrs} {children} {v} {es} {vs} built rest) =
    ap (λ o. and_then o (λ a. and_then (read_all read vs) (λ as_. some (a ∷ as_))))
      (same attrs children v built)
    ∙ ap (λ o. and_then (tree (attrs, children)) (λ a. and_then o (λ as_. some (a ∷ as_))))
        (read_all-Built c read tree same es vs rest)

text_of-given_or : (o : Option Text) → text_of (given_or o (some missing)) ≡ o
text_of-given_or none = refl
text_of-given_or (some t) = refl

compound_of-parts :
    {ss rs : Option (List (List MemberDef))} {gs hs cs ds : Option (List Text)}
    → ss ≡ rs
    → gs ≡ hs
    → cs ≡ ds
    → compound_of ss gs cs ≡ compound_of rs hs ds
compound_of-parts p q r = cc

-- A list of objects in an attribute that is empty at first.
pub list-Built :
    (c d : ClassName) (k : Text)
    → IsSole c (some k) k
    → is_absent k (schema c).attributes ≡ true
    → get_field (sub_initial c (schema c).initial) k ≡ some (list Values.nil)
    → find_rule (schema c).rules k ≡ some (append_object k d)
    → (attrs : List (Text × Text)) (ns : Nodes) (fs gs : Fields)
    → eq_text (codes "valueOf_") k ≡ false
    → start c attrs ≡ some fs
    → build_children ns c fs ≡ some gs
    → (ws : Values) × (get_field gs k ≡ some (list ws)) × Built d (named k ns) ws
list-Built c d k sole absent empty found attrs ns fs gs apart started built =
    build_children-append_object c k k sole ns d fs gs Values.nil found built
      (start-other c attrs fs k apart absent started ∙ empty)

read_list-built :
    {A : Type 0} (c d : ClassName) (k : Text)
    → IsSole c (some k) k
    → is_absent k (schema c).attributes ≡ true
    → get_field (sub_initial c (schema c).initial) k ≡ some (list Values.nil)
    → find_rule (schema c).rules k ≡ some (append_object k d)
    → (read : Value → Option A) (tree : Element → Option A)
    → ((attrs : List (Text × Text)) (ns : Nodes) (v : Value)
        → build d attrs ns ≡ some v
        → read v ≡ tree (attrs, ns))
    → (attrs : List (Text × Text)) (ns : Nodes) (fs gs : Fields)
    → eq_text (codes "valueOf_") k ≡ false
    → start c attrs ≡ some fs
    → build_children ns c fs ≡ some gs
    → read_list (read_all read) gs k ≡ tree_all tree (named k ns)
read_list-built c d k sole absent empty found read tree same attrs ns fs gs apart started built =
    let (ws, all, objects) =
      list-Built c d k sole absent empty found attrs ns fs gs apart started built in
    ap (λ o. and_then (list_of o) (read_all read)) all
    ∙ read_all-Built d read tree same (named k ns) ws objects

-- The refid of a reference.
build-read_refid :
    (attrs : List (Text × Text)) (ns : Nodes) (v : Value)
    → build ref_type attrs ns ≡ some v
    → read_refid v ≡ tree_refid (attrs, ns)
unfolding sub_text find_rule eq_text get_field
build-read_refid attrs ns v p =
    let (fs, gs, started, built, kept) = build-parts ref_type attrs ns v p in
    let held =
      start-text ref_type attrs fs (codes "refid") (codes "refid")
        (take 1 (schema ref_type).attributes) [] refl refl refl refl started in
    let free =
      build_children-other ref_type (codes "refid")
        (record { sole = refl; apart = refl; plain = refl; plain_text = λ t hs. refl }) ns fs gs
        built in
    ap (λ o. and_then o read_refid) (sym kept)
    ∙ (ap text_of (free ∙ held) ∙ text_of-given_or (get_attr attrs (codes "refid")))

build-read_member :
    (attrs : List (Text × Text)) (ns : Nodes) (v : Value)
    → build memberdef_type attrs ns ≡ some v
    → read_member v ≡ tree_member (attrs, ns)
unfolding sub_text find_rule eq_text get_field
build-read_member attrs ns v p =
    let (fs, gs, started, built, kept) = build-parts memberdef_type attrs ns v p in
    let kind =
      build_children-other memberdef_type (codes "kind")
        (record { sole = refl; apart = refl; plain = refl; plain_text = λ t hs. refl }) ns fs gs
        built
      ∙ start-text memberdef_type attrs fs (codes "kind") (codes "kind")
          (take 1 (schema memberdef_type).attributes) (drop 2 (schema memberdef_type).attributes)
          refl refl refl refl started in
    let name =
      build_children-set_text memberdef_type (codes "name") (codes "name")
        (record { sole = refl; apart = refl; plain = refl; plain_text = λ t hs. refl }) ns fs gs []
        refl built (start-other memberdef_type attrs fs (codes "name") refl refl started) in
    ap (λ o. and_then o read_member) (sym kept)
    ∙ (ap (λ o. member_of (text_of o) (text_of (get_field gs (codes "name")))) kind
        ∙ (ap (λ o. member_of o (text_of (get_field gs (codes "name"))))
              (text_of-given_or (get_attr attrs (codes "kind")))
            ∙ ap (λ o. member_of (get_attr attrs (codes "kind")) (text_of o)) name))

build-read_section :
    (attrs : List (Text × Text)) (ns : Nodes) (v : Value)
    → build sectiondef_type attrs ns ≡ some v
    → read_section v ≡ tree_section (attrs, ns)
unfolding sub_text find_rule eq_text get_field
build-read_section attrs ns v p =
    let (fs, gs, started, built, kept) = build-parts sectiondef_type attrs ns v p in
    ap (λ o. and_then o read_section) (sym kept)
    ∙ read_list-built sectiondef_type memberdef_type (codes "memberdef")
        (record { sole = refl; apart = refl; plain = refl; plain_text = λ t hs. refl }) refl refl
        refl read_member tree_member build-read_member attrs ns fs gs refl started built

build-read_compound :
    (attrs : List (Text × Text)) (ns : Nodes) (v : Value)
    → build compounddef_type attrs ns ≡ some v
    → read_compound v ≡ tree_compound (attrs, ns)
unfolding sub_text find_rule eq_text get_field
build-read_compound attrs ns v p =
    let (fs, gs, started, built, kept) = build-parts compounddef_type attrs ns v p in
    let sections =
      read_list-built compounddef_type sectiondef_type (codes "sectiondef")
        (record { sole = refl; apart = refl; plain = refl; plain_text = λ t hs. refl }) refl refl
        refl read_section tree_section build-read_section attrs ns fs gs refl started built in
    let groups =
      read_list-built compounddef_type ref_type (codes "innergroup")
        (record { sole = refl; apart = refl; plain = refl; plain_text = λ t hs. refl }) refl refl
        refl read_refid tree_refid build-read_refid attrs ns fs gs refl started built in
    let classes =
      read_list-built compounddef_type ref_type (codes "innerclass")
        (record { sole = refl; apart = refl; plain = refl; plain_text = λ t hs. refl }) refl refl
        refl read_refid tree_refid build-read_refid attrs ns fs gs refl started built in
    ap (λ o. and_then o read_compound) (sym kept) ∙ compound_of-parts sections groups classes

-- The object of the last of the elements.
abbrev last_or : {A : Type 0} → (Element → Option A) → Option A → List Element → Option A
last_or tree o [] = o
last_or tree o (e ∷ es) = last_or tree (tree e) es

last_or-element :
    {A : Type 0} (tree : Element → Option A) (e : Element) (es : List Element)
    → last_or tree (tree e) es ≡ and_then (last_element (e ∷ es)) tree
last_or-element tree e [] = refl
last_or-element tree e (d ∷ es) = last_or-element tree d es

last_or-none :
    {A : Type 0} (tree : Element → Option A) (es : List Element)
    → last_or tree none es ≡ and_then (last_element es) tree
last_or-none tree [] = refl
last_or-none tree (e ∷ es) = last_or-element tree e es

read-LastBuilt :
    {A : Type 0} (c : ClassName) (read : Value → Option A) (tree : Element → Option A)
    → ((attrs : List (Text × Text)) (ns : Nodes) (v : Value)
        → build c attrs ns ≡ some v
        → read v ≡ tree (attrs, ns))
    → (u : Value) (es : List Element) (w : Value) → LastBuilt c u es w
    → read w ≡ last_or tree (read u) es
read-LastBuilt c read tree same u _ _ last_nil = refl
read-LastBuilt c read tree same _ _ _ (last_cons {attrs} {children} {u} {v} {w} {es} built rest) =
    read-LastBuilt c read tree same v es w rest
    ∙ ap (λ o. last_or tree o es) (same attrs children v built)

-- For every file that `parse` comes to the end of, what doxyindex.py reads of the objects is what the tree of the file
-- says: the sections, the kind and name of each `memberdef` and the refids of inner groups and classes are those
-- of the elements of these names, all of them and in the order of the file, whatever else the elements
-- hold; where a file or an element has several of what the code keeps one of, the last one counts.
pub parse-read_file :
    (attrs : List (Text × Text)) (ns : Nodes) (v : Value)
    → parse attrs ns ≡ some v
    → read_file v ≡ tree_file ns
unfolding parse sub_text find_rule eq_text get_field
parse-read_file attrs ns v p =
    let (fs, gs, started, built, kept) = build-parts doxygen_type attrs ns v p in
    let held = start-other doxygen_type attrs fs (codes "compounddef") refl refl started in
    let (w, all, last) =
      build_children-set_object doxygen_type (codes "compounddef") (codes "compounddef")
        (record { sole = refl; apart = refl; plain = refl; plain_text = λ t hs. refl }) ns
        compounddef_type fs gs missing refl built held in
    ap (λ o. and_then o read_file) (sym kept)
    ∙ (ap (λ o. and_then o read_compound) all
        ∙ (read-LastBuilt compounddef_type read_compound tree_compound build-read_compound missing
              (named (codes "compounddef") ns) w last
            ∙ last_or-none tree_compound (named (codes "compounddef") ns)))
