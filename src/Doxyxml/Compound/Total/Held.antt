-- ===== src/Doxyxml/Compound/Total/Held.antt =====
-- An object of a class keeps its lists and its text.
use aegir_sdr.Common.{
  Bool, true, false, not, Bool-cases, some, inl, inr, ◌≡◌, sym, ap, ◌∙◌, subst, Text, codes,
  eq_text, eq_text_iff,
}
use aegir_sdr.Doxyxml.Base.Lookup.{clash}
use aegir_sdr.Doxyxml.Description.Breaks.{&&-left, &&-right}
use aegir_sdr.Doxyxml.Compound.Classes.{ClassName}
use aegir_sdr.Doxyxml.Compound.Object.{
  and_then, Value, string, list, Values, ◌+++◌, Fields, get_field, set_field, append_value,
  append_field,
}
use aegir_sdr.Doxyxml.Compound.Schemas.{schema}
use aegir_sdr.Doxyxml.Compound.Read.Stored.{get_field-set_same, get_field-set_other}
use aegir_sdr.Doxyxml.Compound.Read.Frame.{not-true}
use aegir_sdr.Doxyxml.Compound.Total.{is_list_field, is_free}
use aegir_sdr.Doxyxml.Compound.Total.Schemas.{all-IsConsistent}

abbrev pub HasLists : ClassName → Fields → Type 0
HasLists c fs =
    (f : Text) → is_list_field c f ≡ true → (vs : Values) × (get_field fs f ≡ some (list vs))

pub record IsTyped (c : ClassName) (fs : Fields) : Type 0 where
  pub lists :
      (f : Text) → is_list_field c f ≡ true → (vs : Values) × (get_field fs f ≡ some (list vs))
  pub value :
      (schema c).value_of ≡ true → (t : Text) × (get_field fs (codes "valueOf_") ≡ some (string t))

never : {A : Type 0} (b : Bool) → b ≡ not b → A
never true h = clash (sym h)
never false h = clash h

-- Two attributes of which one alone is a list
pub different :
    (c : ClassName) (g f : Text) (b : Bool)
    → is_list_field c g ≡ b
    → is_list_field c f ≡ not b
    → eq_text g f ≡ false
different c g f b hg hf = elim (Bool-cases (eq_text g f)) [
  | inl e ↦ never b (sym hg ∙ ap (is_list_field c) ((eq_text_iff g f).0 e) ∙ hf)
  | inr e ↦ e
]

pub is_free-no-list : (c : ClassName) (g : Text) → is_free c g ≡ true → is_list_field c g ≡ false
is_free-no-list c g h = not-true (is_list_field c g) (&&-left _ _ h)

pub is_free-no-value :
    (c : ClassName) (g : Text) → is_free c g ≡ true → eq_text g (codes "valueOf_") ≡ false
is_free-no-value c g h = not-true (eq_text g (codes "valueOf_")) (&&-right _ _ h)

pub set_field-HasLists :
    (c : ClassName) (fs : Fields) (g : Text) (v : Value)
    → is_list_field c g ≡ false
    → HasLists c fs
    → HasLists c (set_field fs g v)
set_field-HasLists c fs g v free lists f h =
    let (vs, held) = lists f h in
    (vs, get_field-set_other fs g f v (different c g f false free h) ∙ held)

pub set_field-IsTyped :
    (c : ClassName) (fs : Fields) (g : Text) (v : Value)
    → is_free c g ≡ true
    → IsTyped c fs
    → IsTyped c (set_field fs g v)
set_field-IsTyped c fs g v free typed = record {
  lists = set_field-HasLists c fs g v (is_free-no-list c g free) typed.lists;
  value = λ h.
      let (t, held) = typed.value h in
      (t, get_field-set_other fs g (codes "valueOf_") v (is_free-no-value c g free) ∙ held);
}

append-lists :
    (c : ClassName) (fs : Fields) (g : Text) (vs : Values)
    → HasLists c fs
    → HasLists c (set_field fs g (list vs))
append-lists c fs g vs lists f h = elim (Bool-cases (eq_text g f)) [
  | inl e ↦ (
    vs,
    subst (λ k. get_field (set_field fs g (list vs)) k ≡ some (list vs)) ((eq_text_iff g f).0 e)
        (get_field-set_same fs g (list vs)),
  )
  | inr e ↦ let (us, held) = lists f h in (us, get_field-set_other fs g f (list vs) e ∙ held)
]

pub append_field-IsTyped :
    (c : ClassName) (fs : Fields) (g : Text) (v : Value)
    → is_list_field c g ≡ true
    → IsTyped c fs
    → (gs : Fields) × (append_field fs g v ≡ some gs) × IsTyped c gs
unfolding append_field
append_field-IsTyped c fs g v here typed =
    let (vs, held) = typed.lists g here in
    let next = vs +++ Values.cons v Values.nil in
    (
      set_field fs g (list next),
      ap (λ o. and_then (append_value o v) (λ u. some (set_field fs g u))) held,
      record {
        lists = append-lists c fs g next typed.lists;
        value = λ h.
            let (t, kept) = typed.value h in
            (
              t,
              get_field-set_other fs g (codes "valueOf_") (list next)
                    (different c g (codes "valueOf_") true here (all-IsConsistent c).value_apart)
                  ∙ kept,
            );
      },
    )
