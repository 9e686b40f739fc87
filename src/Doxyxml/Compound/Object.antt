-- ===== src/Doxyxml/Compound/Object.antt =====
-- The objects that generated/compoundsuper.py builds: an object is its class and its attributes, which
-- a Python object holds in a dictionary.
use aegir_sdr.Common.{List, [], ◌∷◌, ℕ, Option, none, some, Text, eq_text, if◌then◌else◌}
use aegir_sdr.Doxyxml.Compound.Classes.{ClassName}

-- The rest of a chain, behind a step that may raise
abbrev pub and_then {ℓ κ} : {A : Type ℓ} {B : Type κ} → Option A → (A → Option B) → Option B
and_then none f = none
and_then (some a) f = f a

pub data ℤ : Type 0 where
  pos : ℕ → ℤ
  negsuc : ℕ → ℤ

-- The categories of `MixedContainer` that the classes use; the content type goes with the category.
pub data Category : Type 0 where
  category_text category_simple category_complex : Category

mutual
  pub data Value : Type 0 where
    missing : Value
    string : Text → Value
    number : ℤ → Value
    list : Values → Value
    object : ClassName → Fields → Value
    -- A `MixedContainer`: category, name, value
    mixed_container : Category → Text → Value → Value

  pub data Values : Type 0 where
    nil : Values
    cons : Value → Values → Values

  pub data Fields : Type 0 where
    no_fields : Fields
    field : Text → Value → Fields → Fields

abbrev pub fields : List (Text × Value) → Fields
fields [] = no_fields
fields ((n, v) ∷ fs) = field n v (fields fs)

infixr 66 ◌+++◌
abbrev pub ◌+++◌ : Values → Values → Values
nil +++ ws = ws
cons v vs +++ ws = cons v (vs +++ ws)

-- `getattr(self, name)`; `none` is the `AttributeError`.
unfoldable pub get_field : Fields → Text → Option Value
get_field no_fields name = none
get_field (field n v fs) name = if eq_text n name then some v else get_field fs name

-- `self.name = value`
unfoldable pub set_field : Fields → Text → Value → Fields
set_field no_fields name value = field name value no_fields
set_field (field n v fs) name value =
    let rest = set_field fs name value in
    if eq_text n name then field n value fs else field n v rest

-- `.append(value)` of what an attribute holds; only a list has it.
abbrev pub append_value : Option Value → Value → Option Value
append_value (some (list vs)) value = some (list (vs +++ cons value nil))
append_value _ value = none

-- `self.name.append(value)`
unfoldable pub append_field : Fields → Text → Value → Option Fields
append_field fs name value =
    and_then (append_value (get_field fs name) value) (λ v. some (set_field fs name v))
