-- ===== src/Doxyxml/Compound/Read/Stored.antt =====
-- Attributes of an object that are set, and that are not.
use aegir_sdr.Common.{
  false, Bool-cases, Option, none, some, inl, inr, ◌≡◌, refl, sym, ap, ◌∙◌, subst, Text, eq_text,
  eq_text_iff, some_inj, arith,
}
use aegir_sdr.Doxyxml.Base.Lookup.{eq_text-same}
use aegir_sdr.Doxyxml.Compound.Object.{
  and_then, Value, list, Values, nil, cons, ◌+++◌, Fields, no_fields, field, get_field, set_field,
  append_value, append_field,
}

pub none_clash : {A B : Type 0} {a : A} → none ≡ some a → B
none_clash p = ground arith

-- A chain that comes to its end has passed its first step.
pub and_then-some :
    {A B : Type 0} (o : Option A) (k : A → Option B) {b : B}
    → and_then o k ≡ some b
    → (a : A) × (o ≡ some a) × (k a ≡ some b)
and_then-some none k p = none_clash p
and_then-some (some a) k p = (a, refl, p)

pub get_field-set_same :
    (fs : Fields) (f : Text) (v : Value) → get_field (set_field fs f v) f ≡ some v
unfolding get_field set_field
get_field-set_same no_fields f v = rw (eq_text-same f, get_field) refl
get_field-set_same (field n w fs) f v = elim (Bool-cases (eq_text n f)) [
  | inl e ↦ rw (e, set_field, get_field, e) refl
  | inr e ↦ rw (e, set_field, get_field, e) (get_field-set_same fs f v)
]

pub get_field-set_other :
    (fs : Fields) (g f : Text) (v : Value)
    → eq_text g f ≡ false
    → get_field (set_field fs g v) f ≡ get_field fs f
unfolding get_field set_field
get_field-set_other no_fields g f v h = rw (h, get_field) refl
get_field-set_other (field n w fs) g f v h = elim (Bool-cases (eq_text n g)) [
  | inl e ↦
      let other = subst (λ t. eq_text t f ≡ false) (sym ((eq_text_iff n g).0 e)) h in
      rw (e, set_field, get_field, other) refl
  | inr e ↦ elim (Bool-cases (eq_text n f)) [
    | inl d ↦ rw (e, set_field, get_field, d) refl
    | inr d ↦ rw (e, set_field, get_field, d) (get_field-set_other fs g f v h)
  ]
]

pub append_field-other :
    (fs gs : Fields) (g f : Text) (v : Value)
    → append_field fs g v ≡ some gs
    → eq_text g f ≡ false
    → get_field gs f ≡ get_field fs f
unfolding append_field
append_field-other fs gs g f v p h =
    let (w, _, q) =
      and_then-some (append_value (get_field fs g) v) (λ u. some (set_field fs g u)) p in
    subst (λ hs. get_field hs f ≡ get_field fs f) (some_inj q) (get_field-set_other fs g f w h)

pub append_field-same :
    (fs gs : Fields) (f : Text) (v : Value) (vs : Values)
    → append_field fs f v ≡ some gs
    → get_field fs f ≡ some (list vs)
    → get_field gs f ≡ some (list (vs +++ cons v nil))
unfolding append_field
append_field-same fs gs f v vs p held =
    let built =
      sym (ap (λ o. and_then (append_value o v) (λ u. some (set_field fs f u))) held) ∙ p in
    subst (λ hs. get_field hs f ≡ some (list (vs +++ cons v nil))) (some_inj built)
      (get_field-set_same fs f (list (vs +++ cons v nil)))
