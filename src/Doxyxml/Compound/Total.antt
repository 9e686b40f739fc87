-- ===== src/Doxyxml/Compound/Total.antt =====
-- Which trees the builders of generated/compoundsuper.py and compound.py come to the end of.
mod Schemas
mod Held
mod Start
mod Rules
mod Asked
pub mod Returns
use aegir_sdr.Common.{
  Bool, true, false, not, ◌&&◌, ◌||◌, Option, none, some, List, [], ◌∷◌, ◌++◌, ◌≡◌, Text, codes,
  eq_text, all, any, if◌then◌else◌,
}
use aegir_sdr.Doxyxml.Dom.{
  Node, element, text, cdata, other, Nodes, nil, cons, get_attr, local_name, text_content,
}
use aegir_sdr.Doxyxml.Compound.Classes.{ClassName}
use aegir_sdr.Doxyxml.Compound.Object.{Value, list, Fields, get_field}
use aegir_sdr.Doxyxml.Compound.Schema.{
  Attribute, text_attribute, int_attribute, Rule, append_object, set_object, set_text, append_text,
  mixed_object, mixed_simple,
}
use aegir_sdr.Doxyxml.Compound.Schemas.{schema}
use aegir_sdr.Doxyxml.Compound.Build.{int_of, sub_initial, is_para, sub_rules, find_rule}

abbrev pub is_given {ℓ} : {A : Type ℓ} → Option A → Bool
is_given none = false
is_given (some a) = true

-- An attribute of the element that `int` takes, or that is not read with `int`
abbrev pub is_number : Option Text → Bool
is_number none = true
is_number (some v) = is_given (int_of v)

abbrev pub is_fine : List (Text × Text) → Attribute → Bool
is_fine attrs (text_attribute name f) = true
is_fine attrs (int_attribute name f) = is_number (get_attr attrs name)

abbrev pub has_numbers : List (Text × Text) → ClassName → Bool
has_numbers attrs c = all (is_fine attrs) (schema c).attributes

-- What a branch asks of an element, given what the loop over its children asks for a class.
abbrev pub is_buildable_by :
    (ClassName → Bool) → List (Text × Text) → Option Text → Option Rule → Bool
is_buildable_by children attrs content none = true
is_buildable_by children attrs content (some (append_object f c)) =
    has_numbers attrs c && children c
is_buildable_by children attrs content (some (set_object f c)) = has_numbers attrs c && children c
is_buildable_by children attrs content (some (set_text f)) = is_given content
is_buildable_by children attrs content (some (append_text f)) = is_given content
is_buildable_by children attrs content (some (mixed_object c)) = has_numbers attrs c && children c
is_buildable_by children attrs content (some mixed_simple) = is_given content

-- The elements that a class reads as texts hold nothing but texts, and the attributes that it reads as
-- numbers are numbers, all the way down.
unfoldable mutual
  pub are_buildable : Nodes → ClassName → Bool
  are_buildable nil c = true
  are_buildable (cons n ns) c = is_buildable n c && are_buildable ns c

  pub is_buildable : Node → ClassName → Bool
  is_buildable (element name attrs children) c =
      is_buildable_by (are_buildable children) attrs (text_content [] children)
        (find_rule (schema c).rules (local_name name))
      && is_buildable_by (are_buildable children) attrs (text_content [] children)
          (find_rule (sub_rules c) (local_name name))
  is_buildable (text t) c = true
  is_buildable (cdata t) c = true
  is_buildable (other v) c = true

-- The attributes of an object that something is appended to.
abbrev pub appended : List (Text × Rule) → List Text
appended [] = []
appended ((n, append_object f c) ∷ rules) = f ∷ appended rules
appended ((n, set_object f c) ∷ rules) = appended rules
appended ((n, set_text f) ∷ rules) = appended rules
appended ((n, append_text f) ∷ rules) = f ∷ appended rules
appended ((n, mixed_object c) ∷ rules) = codes "content_" ∷ appended rules
appended ((n, mixed_simple) ∷ rules) = codes "content_" ∷ appended rules

abbrev pub list_fields : ClassName → List Text
list_fields c =
    (if (schema c).mixed_text then codes "content_" ∷ [] else [])
    ++ (appended (schema c).rules ++ appended (sub_rules c))

unfoldable pub is_list_field : ClassName → Text → Bool
is_list_field c f = any (eq_text f) (list_fields c)

-- Nothing that is appended to is set, and what holds the text of the children is neither.
abbrev pub is_free : ClassName → Text → Bool
is_free c f = not (is_list_field c f) && not (eq_text f (codes "valueOf_"))

abbrev pub is_lawful : ClassName → Rule → Bool
is_lawful c (append_object f d) = is_list_field c f
is_lawful c (set_object f d) = is_free c f
is_lawful c (set_text f) = is_free c f
is_lawful c (append_text f) = is_list_field c f
is_lawful c (mixed_object d) = is_list_field c (codes "content_")
is_lawful c mixed_simple = is_list_field c (codes "content_")

abbrev pub stored_in : Attribute → Text
stored_in (text_attribute name f) = f
stored_in (int_attribute name f) = f

abbrev pub is_list : Option Value → Bool
is_list (some (list vs)) = true
is_list _ = false

-- The laws that the copies of the template keep.
pub record IsConsistent (c : ClassName) : Type 0 where
  pub rules_lawful : all (λ p. is_lawful c p.1) (schema c).rules ≡ true
  pub sub_lawful : all (λ p. is_lawful c p.1) (sub_rules c) ≡ true
  pub attributes_free : all (λ a. is_free c (stored_in a)) (schema c).attributes ≡ true
  pub lists_initial :
      all (λ f. is_list (get_field (sub_initial c (schema c).initial) f)) (list_fields c) ≡ true
  pub value_apart : is_list_field c (codes "valueOf_") ≡ false
  pub content_list : not (schema c).mixed_text || is_list_field c (codes "content_") ≡ true
  pub para_list : not (is_para c) || is_list_field c (codes "content") ≡ true
