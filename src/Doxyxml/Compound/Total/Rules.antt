-- ===== src/Doxyxml/Compound/Total/Rules.antt =====
-- A branch of `buildChildren` raises nothing at an element that it can be built from.
use aegir_sdr.Common.{
  Bool, true, false, not, ◌&&◌, ◌||◌, Bool-cases, Option, Option-cases, some, inl, inr, List, [],
  ◌∷◌, ◌++◌, ◌≡◌, refl, sym, ap, ◌∙◌, subst, Text, codes, eq_text, all, if◌then◌else◌, some_inj,
}
use aegir_sdr.Doxyxml.Description.Breaks.{&&-left, &&-right}
use aegir_sdr.Doxyxml.Compound.Classes.{ClassName}
use aegir_sdr.Doxyxml.Compound.Object.{
  and_then, Value, string, object, mixed_container, category_simple, category_complex, Fields,
  set_field, append_field,
}
use aegir_sdr.Doxyxml.Compound.Schema.{
  Rule, append_object, set_object, set_text, append_text, mixed_object, mixed_simple,
}
use aegir_sdr.Doxyxml.Compound.Schemas.{schema}
use aegir_sdr.Doxyxml.Compound.Build.{
  added_text, add_value, text_container, add_mixed_text, build_text, build_cdata, find_rule,
  build_object, apply_rule, is_para, sub_text,
}
use aegir_sdr.Doxyxml.Compound.Read.Stored.{none_clash, get_field-set_same}
use aegir_sdr.Doxyxml.Compound.Total.{
  is_given, has_numbers, is_buildable_by, is_list_field, is_lawful,
}
use aegir_sdr.Doxyxml.Compound.Total.Schemas.{all-IsConsistent}
use aegir_sdr.Doxyxml.Compound.Total.Held.{
  IsTyped, set_field-IsTyped, set_field-HasLists, append_field-IsTyped,
}
use aegir_sdr.Doxyxml.Compound.Total.Start.{given_some, start-IsTyped}

-- A step that comes to its end, with an object of the class.
abbrev pub Goes : ClassName → Option Fields → Type 0
Goes c o = (gs : Fields) × (o ≡ some gs) × IsTyped c gs

-- What the loop over the children of an element does for each class that asks for no more than it has.
abbrev pub Builds : (ClassName → Fields → Option Fields) → (ClassName → Bool) → Type 0
Builds children asks =
    (d : ClassName) (fs : Fields) → IsTyped d fs → asks d ≡ true → Goes d (children d fs)

build_object-Goes :
    (children : ClassName → Fields → Option Fields) (asks : ClassName → Bool)
    → Builds children asks
    → (attrs : List (Text × Text)) (c d : ClassName) (keep : Value → Option Fields)
    → ((v : Value) → Goes c (keep v))
    → has_numbers attrs d && asks d ≡ true
    → Goes c (build_object children attrs d keep)
unfolding build_object
build_object-Goes children asks builds attrs c d keep kept fine =
    let (fs, started, typed) = start-IsTyped d attrs (&&-left _ _ fine) in
    let (hs, built, _) = builds d fs typed (&&-right _ _ fine) in
    let (gs, done, still) = kept (object d hs) in
    (
      gs,
      ap (λ o. and_then o (λ is. and_then (children d is) (λ js. keep (object d js)))) started
          ∙ ap (λ o. and_then o (λ js. keep (object d js))) built
          ∙ done,
      still,
    )

text-Goes :
    (c : ClassName) (content : Option Text) (keep : Text → Option Fields)
    → ((t : Text) → Goes c (keep t))
    → is_given content ≡ true
    → Goes c (and_then content keep)
text-Goes c content keep kept given =
    let (t, read) = given_some content given in
    let (gs, done, still) = kept t in (gs, ap (λ o. and_then o keep) read ∙ done, still)

module _ (children : ClassName → Fields → Option Fields) (asks : ClassName → Bool)
    (builds : Builds children asks) (name : Text) (attrs : List (Text × Text))
    (content : Option Text) (c : ClassName) (fs : Fields) (typed : IsTyped c fs) where
  apply_rule-lawful :
      (r : Rule)
      → is_lawful c r ≡ true
      → is_buildable_by asks attrs content (some r) ≡ true
      → Goes c (apply_rule children name attrs content (some r) fs)
  unfolding apply_rule
  apply_rule-lawful (append_object f d) lawful fine =
      build_object-Goes children asks builds attrs c d (append_field fs f)
        (λ v. append_field-IsTyped c fs f v lawful typed) fine
  apply_rule-lawful (set_object f d) lawful fine =
      build_object-Goes children asks builds attrs c d (λ v. some (set_field fs f v))
        (λ v. (set_field fs f v, refl, set_field-IsTyped c fs f v lawful typed)) fine
  apply_rule-lawful (set_text f) lawful fine =
      text-Goes c content (λ t. some (set_field fs f (string t)))
        (λ t. (set_field fs f (string t), refl, set_field-IsTyped c fs f (string t) lawful typed))
        fine
  apply_rule-lawful (append_text f) lawful fine =
      text-Goes c content (λ t. append_field fs f (string t))
        (λ t. append_field-IsTyped c fs f (string t) lawful typed) fine
  apply_rule-lawful (mixed_object d) lawful fine =
      build_object-Goes children asks builds attrs c d
        (λ v. append_field fs (codes "content_") (mixed_container category_complex name v))
        (λ v.
          append_field-IsTyped c fs (codes "content_") (mixed_container category_complex name v)
            lawful typed)
        fine
  apply_rule-lawful mixed_simple lawful fine =
      text-Goes c content
        (λ t. append_field fs (codes "content_") (mixed_container category_simple name (string t)))
        (λ t.
          append_field-IsTyped c fs (codes "content_")
            (mixed_container category_simple name (string t)) lawful typed)
        fine

  find_rule-lawful :
      (rules : List (Text × Rule)) (r : Rule)
      → all (λ p. is_lawful c p.1) rules ≡ true
      → find_rule rules name ≡ some r
      → is_lawful c r ≡ true
  unfolding find_rule
  find_rule-lawful [] r lawful p = none_clash p
  find_rule-lawful ((n, q) ∷ rules) r lawful p = elim (Bool-cases (eq_text n name)) [
    | inl e ↦
        let found : some q ≡ some r =
          subst (λ b. elim b [ true ↦ some q | false ↦ find_rule rules name ] ≡ some r) e p in
        subst (λ s. is_lawful c s ≡ true) (some_inj found) (&&-left _ _ lawful)
    | inr e ↦
        find_rule-lawful rules r (&&-right _ _ lawful)
          (subst (λ b. elim b [ true ↦ some q | false ↦ find_rule rules name ] ≡ some r) e p)
  ]

  -- The branch for the name of an element, if there is one.
  pub apply_rule-Goes :
      (rules : List (Text × Rule))
      → all (λ p. is_lawful c p.1) rules ≡ true
      → is_buildable_by asks attrs content (find_rule rules name) ≡ true
      → Goes c (apply_rule children name attrs content (find_rule rules name) fs)
  unfolding apply_rule
  apply_rule-Goes rules lawful fine = elim (Option-cases (find_rule rules name)) [
    | inl e ↦
        subst (λ o. Goes c (apply_rule children name attrs content o fs)) (sym e) (fs, refl, typed)
    | inr (r, e) ↦
        subst (λ o. Goes c (apply_rule children name attrs content o fs)) (sym e)
          (apply_rule-lawful r (find_rule-lawful rules r lawful e)
            (subst (λ o. is_buildable_by asks attrs content o ≡ true) e fine))
  ]

add_value-Goes :
    (c : ClassName) (b : Bool) (t : Text) (fs : Fields)
    → (schema c).value_of ≡ b
    → IsTyped c fs
    → Goes c (add_value b t fs)
unfolding add_value
add_value-Goes c false t fs e typed = (fs, refl, typed)
add_value-Goes c true t fs e typed =
    let (s, held) = typed.value e in
    (
      set_field fs (codes "valueOf_") (string (s ++ t)),
      ap (λ o. and_then (added_text o t) (λ v. some (set_field fs (codes "valueOf_") v))) held,
      record {
        lists =
            set_field-HasLists c fs (codes "valueOf_") (string (s ++ t))
              (all-IsConsistent c).value_apart typed.lists;
        value = λ h. (s ++ t, get_field-set_same fs (codes "valueOf_") (string (s ++ t)));
      },
    )

pub build_cdata-Goes :
    (c : ClassName) (t : Text) (fs : Fields) → IsTyped c fs → Goes c (build_cdata c t fs)
unfolding build_cdata
build_cdata-Goes c t fs typed = add_value-Goes c (schema c).value_of _ fs refl typed

add_mixed_text-Goes :
    (c : ClassName) (b : Bool) (t : Text) (fs : Fields)
    → not b || is_list_field c (codes "content_") ≡ true
    → IsTyped c fs
    → Goes c (add_mixed_text b t fs)
unfolding add_mixed_text
add_mixed_text-Goes c false t fs h typed = (fs, refl, typed)
add_mixed_text-Goes c true t fs h typed =
    append_field-IsTyped c fs (codes "content_") (text_container t) h typed

pub build_text-Goes :
    (c : ClassName) (t : Text) (fs : Fields) → IsTyped c fs → Goes c (build_text c t fs)
unfolding build_text
build_text-Goes c t fs typed =
    let (hs, first, held) =
      add_mixed_text-Goes c (schema c).mixed_text t fs (all-IsConsistent c).content_list typed in
    let (gs, rest, kept) = add_value-Goes c (schema c).value_of t hs refl held in
    (gs, ap (λ o. and_then o (λ is. add_value (schema c).value_of t is)) first ∙ rest, kept)

sub_text-Goes :
    (c : ClassName) (t : Text) (fs : Fields) (b : Bool)
    → not b || is_list_field c (codes "content") ≡ true
    → IsTyped c fs
    → Goes c (if b then append_field fs (codes "content") (text_container t) else some fs)
sub_text-Goes c t fs true h typed =
    append_field-IsTyped c fs (codes "content") (text_container t) h typed
sub_text-Goes c t fs false h typed = (fs, refl, typed)

pub para_text-Goes :
    (c : ClassName) (t : Text) (fs : Fields) → IsTyped c fs → Goes c (sub_text c t fs)
unfolding sub_text
para_text-Goes c t fs typed = sub_text-Goes c t fs (is_para c) (all-IsConsistent c).para_list typed
