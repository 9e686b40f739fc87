-- ===== src/Doxyxml/Compound/Total/Start.antt =====
-- An object starts with its lists and its text, if the attributes of its element are numbers where they must be.
use aegir_sdr.Common.{
  Bool, true, false, ◌||◌, Option, none, some, inl, inr, List, [], ◌∷◌, ◌≡◌, refl, sym, ap, ◌∙◌,
  subst, Text, codes, eq_text, eq_text_iff, all, any,
}
use aegir_sdr.Common.{Bool-cases}
use aegir_sdr.Doxyxml.Base.Lookup.{clash}
use aegir_sdr.Doxyxml.Description.Breaks.{&&-left, &&-right}
use aegir_sdr.Doxyxml.Dom.{get_attr}
use aegir_sdr.Doxyxml.Compound.Classes.{ClassName}
use aegir_sdr.Doxyxml.Compound.Object.{
  and_then, Value, missing, string, number, list, object, mixed_container, Values, Fields,
  get_field, set_field,
}
use aegir_sdr.Doxyxml.Compound.Schema.{Attribute, text_attribute, int_attribute}
use aegir_sdr.Doxyxml.Compound.Schemas.{schema}
use aegir_sdr.Doxyxml.Compound.Build.{
  int_of, if_given, build_attribute, build_attributes, reset_value, sub_initial, start,
}
use aegir_sdr.Doxyxml.Compound.Read.Stored.{get_field-set_same}
use aegir_sdr.Doxyxml.Compound.Total.{
  is_given, is_number, is_fine, has_numbers, is_list_field, is_free, is_list, list_fields,
  stored_in,
}
use aegir_sdr.Doxyxml.Compound.Total.Schemas.{all-IsConsistent}
use aegir_sdr.Doxyxml.Compound.Total.Held.{HasLists, IsTyped, set_field-HasLists, is_free-no-list}

pub given_some : {A : Type 0} (o : Option A) → is_given o ≡ true → (a : A) × (o ≡ some a)
given_some none h = clash h
given_some (some a) h = (a, refl)

list_some : (o : Option Value) → is_list o ≡ true → (vs : Values) × (o ≡ some (list vs))
list_some none h = clash h
list_some (some missing) h = clash h
list_some (some (string s)) h = clash h
list_some (some (number n)) h = clash h
list_some (some (list vs)) h = (vs, refl)
list_some (some (object c fs)) h = clash h
list_some (some (mixed_container c name v)) h = clash h

-- What holds of all texts of a list holds of one that is in it.
all-any :
    (p : Text → Bool) (f : Text) (gs : List Text)
    → all p gs ≡ true
    → any (eq_text f) gs ≡ true
    → p f ≡ true
all-any p f [] every here = clash here
all-any p f (g ∷ gs) every here = elim (Bool-cases (eq_text f g)) [
  | inl e ↦ subst (λ t. p t ≡ true) (sym ((eq_text_iff f g).0 e)) (&&-left _ _ every)
  | inr e ↦ all-any p f gs (&&-right _ _ every) (subst (λ b. b || any (eq_text f) gs ≡ true) e here)
]

initial-HasLists : (c : ClassName) → HasLists c (sub_initial c (schema c).initial)
unfolding is_list_field
initial-HasLists c f h = list_some (get_field (sub_initial c (schema c).initial) f) (
    all-any (λ g. is_list (get_field (sub_initial c (schema c).initial) g)) f (list_fields c)
      (all-IsConsistent c).lists_initial h)

text-HasLists :
    (c : ClassName) (fs : Fields) (g : Text)
    → is_list_field c g ≡ false
    → HasLists c fs
    → (o : Option Text)
    → (gs : Fields) × (if_given o (λ v. some (set_field fs g (string v))) fs ≡ some gs)
      × HasLists c gs
text-HasLists c fs g free lists none = (fs, refl, lists)
text-HasLists c fs g free lists (some v) =
    (set_field fs g (string v), refl, set_field-HasLists c fs g (string v) free lists)

int-HasLists :
    (c : ClassName) (fs : Fields) (g : Text)
    → is_list_field c g ≡ false
    → HasLists c fs
    → (o : Option Text) → is_number o ≡ true
    → (gs : Fields) × (if_given o
          (λ v. and_then (int_of v) (λ n. some (set_field fs g (number n))))
          fs
        ≡ some gs)
      × HasLists c gs
int-HasLists c fs g free lists none fine = (fs, refl, lists)
int-HasLists c fs g free lists (some v) fine =
    let (n, read) = given_some (int_of v) fine in
    (
      set_field fs g (number n),
      ap (λ o. and_then o (λ m. some (set_field fs g (number m)))) read,
      set_field-HasLists c fs g (number n) free lists,
    )

build_attribute-HasLists :
    (c : ClassName) (attrs : List (Text × Text)) (a : Attribute) (fs : Fields)
    → is_free c (stored_in a) ≡ true
    → is_fine attrs a ≡ true
    → HasLists c fs
    → (gs : Fields) × (build_attribute attrs a fs ≡ some gs) × HasLists c gs
unfolding build_attribute
build_attribute-HasLists c attrs (text_attribute name g) fs free fine lists =
    text-HasLists c fs g (is_free-no-list c g free) lists (get_attr attrs name)
build_attribute-HasLists c attrs (int_attribute name g) fs free fine lists =
    int-HasLists c fs g (is_free-no-list c g free) lists (get_attr attrs name) fine

build_attributes-HasLists :
    (c : ClassName) (attrs : List (Text × Text)) (as_ : List Attribute) (fs : Fields)
    → all (λ a. is_free c (stored_in a)) as_ ≡ true
    → all (is_fine attrs) as_ ≡ true
    → HasLists c fs
    → (gs : Fields) × (build_attributes attrs as_ fs ≡ some gs) × HasLists c gs
unfolding build_attributes
build_attributes-HasLists c attrs [] fs free fine lists = (fs, refl, lists)
build_attributes-HasLists c attrs (a ∷ as_) fs free fine lists =
    let (hs, first, held) =
      build_attribute-HasLists c attrs a fs (&&-left _ _ free) (&&-left _ _ fine) lists in
    let (gs, rest, kept) =
      build_attributes-HasLists c attrs as_ hs (&&-right _ _ free) (&&-right _ _ fine) held in
    (gs, ap (λ o. and_then o (build_attributes attrs as_)) first ∙ rest, kept)

reset_value-IsTyped :
    (c : ClassName) (b : Bool) (fs : Fields)
    → (schema c).value_of ≡ b
    → HasLists c fs
    → IsTyped c (reset_value b fs)
reset_value-IsTyped c true fs e lists = record {
  lists =
      set_field-HasLists c fs (codes "valueOf_") (string []) (all-IsConsistent c).value_apart lists;
  value = λ h. ([], get_field-set_same fs (codes "valueOf_") (string []));
}
reset_value-IsTyped c false fs e lists = record { lists = lists; value = λ h. clash (sym e ∙ h) }

-- `factory()` and `build` up to its loop raise nothing if the attributes that are read as numbers are numbers.
pub start-IsTyped :
    (c : ClassName) (attrs : List (Text × Text))
    → has_numbers attrs c ≡ true
    → (fs : Fields) × (start c attrs ≡ some fs) × IsTyped c fs
unfolding start
start-IsTyped c attrs fine =
    let (fs, built, lists) =
      build_attributes-HasLists c attrs (schema c).attributes (sub_initial c (schema c).initial)
        (all-IsConsistent c).attributes_free fine (initial-HasLists c) in
    (
      reset_value (schema c).value_of fs,
      ap (λ o. and_then o (λ hs. some (reset_value (schema c).value_of hs))) built,
      reset_value-IsTyped c (schema c).value_of fs refl lists,
    )
