-- ===== src/Doxyxml/Compound/Build.antt =====
-- The `build` that the classes of generated/compoundsuper.py share, driven by their schemas, with the
-- overriding `buildChildren` of `docParaTypeSub` in generated/compound.py. `none` is an exception: a text
-- read from an element that has no `nodeValue`, or an attribute that `int` refuses.
use aegir_sdr.Common.{
  ℕ, zero, suc, ◌+◌, ◌-◌, ◌*◌, Bool, true, false, ◌&&◌, Option, none, some, List, [], ◌∷◌, ◌++◌,
  Text, codes, eq_text, leb, ◌==◌, strip, if◌then◌else◌,
}
use aegir_sdr.Doxyxml.Dom.{
  Node, element, text, cdata, other, Nodes, nil, cons, get_attr, local_name, text_content,
}
use aegir_sdr.Doxyxml.Compound.Classes.{
  ClassName, doxygen_type, doc_para_type, doc_ref_text_type, doc_param_list_type,
  doc_simple_sect_type,
}
use aegir_sdr.Doxyxml.Compound.Object.{
  and_then, ℤ, pos, negsuc, Values, Value, string, number, list, object, mixed_container,
  category_text, category_simple, category_complex, Fields, get_field, set_field, append_field,
}
use aegir_sdr.Doxyxml.Compound.Schema.{
  Attribute, text_attribute, int_attribute, Rule, append_object, set_object, set_text, append_text,
  mixed_object, mixed_simple,
}
use aegir_sdr.Doxyxml.Compound.Schemas.{schema}

is_digit : ℕ → Bool
is_digit c = leb b'0' c && leb c b'9'

-- Digits with single underscores between them, behind at least one digit; decimal digits outside
-- ASCII, which `int` takes too, are refused.
digits : ℕ → Text → Option ℕ
unfolding is_digit
digits n [] = some n
digits n (c ∷ []) = if is_digit c then some (n * 10 + (c - b'0')) else none
digits n (c ∷ d ∷ s) = elim (is_digit c) [
  | true ↦ digits (n * 10 + (c - b'0')) (d ∷ s)
  | false ↦ elim (c == b'_' && is_digit d) [ true ↦ digits n (d ∷ s) | false ↦ none ]
]

natural : Text → Option ℕ
unfolding digits
natural [] = none
natural (c ∷ s) = if is_digit c then digits 0 (c ∷ s) else none

negative : ℕ → ℤ
negative zero = pos 0
negative (suc n) = negsuc n

signed : Text → Option ℤ
unfolding natural negative
signed [] = none
signed (c ∷ s) =
    if c == b'-'
    then and_then (natural s) (λ n. some (negative n))
    else and_then (natural (if c == b'+' then s else c ∷ s)) (λ n. some (pos n))

-- `int(value)`; `none` is the `ValueError`.
unfoldable pub int_of : Text → Option ℤ
unfolding signed
int_of value = signed (strip value)

-- `if attrs.get(name):`, around what is done with the value
abbrev pub if_given : Option Text → (Text → Option Fields) → Fields → Option Fields
if_given none keep fs = some fs
if_given (some v) keep fs = keep v

-- One `if` of `buildAttributes`
unfoldable pub build_attribute : List (Text × Text) → Attribute → Fields → Option Fields
build_attribute attrs (text_attribute name field) fs =
    if_given (get_attr attrs name) (λ v. some (set_field fs field (string v))) fs
build_attribute attrs (int_attribute name field) fs =
    if_given (get_attr attrs name)
      (λ v. and_then (int_of v) (λ n. some (set_field fs field (number n)))) fs

unfoldable pub build_attributes : List (Text × Text) → List Attribute → Fields → Option Fields
build_attributes attrs [] fs = some fs
build_attributes attrs (a ∷ as_) fs =
    and_then (build_attribute attrs a fs) (λ gs. build_attributes attrs as_ gs)

-- `self.valueOf_ = ''`, in the classes that have it
abbrev pub reset_value : Bool → Fields → Fields
reset_value true fs = set_field fs (codes "valueOf_") (string [])
reset_value false fs = fs

-- The class that `docParaTypeSub` stands for
abbrev pub is_para : ClassName → Bool
is_para doc_para_type = true
is_para _ = false

-- What `docParaTypeSub.__init__` adds to the attributes of its superclass.
abbrev pub sub_initial : ClassName → Fields → Fields
sub_initial doc_para_type fs =
    set_field
      (set_field (set_field fs (codes "parameterlist") (list Values.nil)) (codes "simplesects")
        (list Values.nil))
      (codes "content") (list Values.nil)
sub_initial _ fs = fs

-- `factory()`, and `build` up to its loop
unfoldable pub start : ClassName → List (Text × Text) → Option Fields
start c attrs =
    and_then (build_attributes attrs (schema c).attributes (sub_initial c (schema c).initial))
      (λ fs. some (reset_value (schema c).value_of fs))

abbrev pub added_text : Option Value → Text → Option Value
added_text (some (string s)) t = some (string (s ++ t))
added_text _ t = none

-- `self.valueOf_ += t`, in the classes that have it
unfoldable pub add_value : Bool → Text → Fields → Option Fields
add_value false t fs = some fs
add_value true t fs =
    and_then (added_text (get_field fs (codes "valueOf_")) t)
      (λ v. some (set_field fs (codes "valueOf_") v))

abbrev pub text_container : Text → Value
text_container t = mixed_container category_text [] (string t)

-- `buildChildren` at a text node, and at a CDATA section
unfoldable pub add_mixed_text : Bool → Text → Fields → Option Fields
add_mixed_text false t fs = some fs
add_mixed_text true t fs = append_field fs (codes "content_") (text_container t)

unfoldable pub build_text : ClassName → Text → Fields → Option Fields
build_text c t fs =
    and_then (add_mixed_text (schema c).mixed_text t fs) (λ gs. add_value (schema c).value_of t gs)

unfoldable pub build_cdata : ClassName → Text → Fields → Option Fields
build_cdata c t fs = add_value (schema c).value_of (codes "![CDATA[" ++ (t ++ codes "]]")) fs

unfoldable pub find_rule : List (Text × Rule) → Text → Option Rule
find_rule [] name = none
find_rule ((n, r) ∷ rs) name = elim (eq_text n name) [ true ↦ some r | false ↦ find_rule rs name ]

-- `obj_ = C.factory(); obj_.build(child_)`: `children` is the loop of that `build`.
unfoldable pub build_object :
    (ClassName → Fields → Option Fields)
    → List (Text × Text)
    → ClassName
    → (Value → Option Fields)
    → Option Fields
build_object children attrs c keep =
    and_then (start c attrs) (λ fs. and_then (children c fs) (λ gs. keep (object c gs)))

-- A branch of `buildChildren` at an element
unfoldable pub apply_rule :
    (ClassName → Fields → Option Fields)
    → Text
    → List (Text × Text)
    → Option Text
    → Option Rule
    → Fields
    → Option Fields
apply_rule children name attrs content none fs = some fs
apply_rule children name attrs content (some (append_object f c)) fs =
    build_object children attrs c (append_field fs f)
apply_rule children name attrs content (some (set_object f c)) fs =
    build_object children attrs c (λ v. some (set_field fs f v))
apply_rule children name attrs content (some (set_text f)) fs =
    and_then content (λ t. some (set_field fs f (string t)))
apply_rule children name attrs content (some (append_text f)) fs =
    and_then content (λ t. append_field fs f (string t))
apply_rule children name attrs content (some (mixed_object c)) fs =
    build_object children attrs c
      (λ v. append_field fs (codes "content_") (mixed_container category_complex name v))
apply_rule children name attrs content (some mixed_simple) fs =
    and_then content
      (λ t. append_field fs (codes "content_") (mixed_container category_simple name (string t)))

-- What `docParaTypeSub` adds to the branches of its superclass.
abbrev pub para_rules : List (Text × Rule)
para_rules =
    (codes "ref", append_object (codes "content") doc_ref_text_type)
    ∷ (codes "parameterlist", append_object (codes "parameterlist") doc_param_list_type)
    ∷ (codes "simplesect", append_object (codes "simplesects") doc_simple_sect_type)
    ∷ []

abbrev pub sub_rules : ClassName → List (Text × Rule)
sub_rules c = if is_para c then para_rules else []

unfoldable pub sub_text : ClassName → Text → Fields → Option Fields
sub_text c t fs =
    if is_para c then append_field fs (codes "content") (text_container t) else some fs

unfoldable mutual
  pub build_children : Nodes → ClassName → Fields → Option Fields
  build_children nil c fs = some fs
  build_children (cons n ns) c fs = and_then (build_child n c fs) (build_children ns c)

  pub build_child : Node → ClassName → Fields → Option Fields
  build_child (element name attrs children) c fs =
      and_then
        (apply_rule (build_children children) (local_name name) attrs (text_content [] children)
          (find_rule (schema c).rules (local_name name)) fs)
        (apply_rule (build_children children) (local_name name) attrs (text_content [] children)
          (find_rule (sub_rules c) (local_name name)))
  build_child (text t) c fs = and_then (build_text c t fs) (sub_text c t)
  build_child (cdata t) c fs = build_cdata c t fs
  build_child (other v) c fs = some fs

-- `build` of an object of a class from an element
unfoldable pub build : ClassName → List (Text × Text) → Nodes → Option Value
build c attrs children =
    and_then (start c attrs)
      (λ fs. and_then (build_children children c fs) (λ gs. some (object c gs)))

-- `parse` of compound.py, from the root element on
unfoldable pub parse : List (Text × Text) → Nodes → Option Value
parse attrs children = build doxygen_type attrs children
