-- ===== src/Doxyxml/Base.antt =====
-- doxyxml/base.py: how an object of the documentation finds its members by their names. A subclass
-- says what the name and the members of an object are; both can raise.
pub mod Lookup
use aegir_sdr.Common.{
  ℕ, Bool, true, false, Option, none, some, List, [], ◌∷◌, ◌++◌, Text, codes, eq_text, cons_head,
  ◌==◌, ◌&&◌, join, if◌then◌else◌,
}

-- What is raised: the three exceptions of `Base`, the `AttributeError` of an attribute of `None`,
-- the plain `Exception` of `get_cls` and of
-- `description_bit`, the `IndexError` of an empty list, and whatever else the reading of a file raises.
pub data Error : Type 0 where
  duplicate : Error
  no_such_member : Error
  parsing_error : Error
  attribute_error : Error
  no_class : Error
  index_error : Error
  file_error : Error

pub data Result {ℓ} (A : Type ℓ) : Type ℓ where
  raises : Error → Result A
  returns : A → Result A

pub record Objects (A Cat : Type 0) : Type 0 where
  -- `mem.name()`
  pub name : A → Result Text
  -- `obj.members()`; `convert_mem` leaves a `None` where it fails.
  pub members : A → Result (List (Option A))
  -- `cat.includes(mem)`, on an object
  pub includes : Cat → A → Bool

-- `name.split('::')`
unfoldable pub split_colons : Text → List Text
split_colons [] = [] ∷ []
split_colons (a ∷ []) = (a ∷ []) ∷ []
split_colons (a ∷ b ∷ s) = elim (a == b':' && b == b':') [
  | true ↦ [] ∷ split_colons s
  | false ↦ cons_head a (split_colons (b ∷ s))
]

module _ {A : Type 0} where
  -- The entry of a name in a dictionary: `none` where the class `Duplicate` stands.
  unfoldable pub get_entry : List (Text × Option A) → Text → Option (Option A)
  get_entry [] n = none
  get_entry ((k, v) ∷ d) n = if eq_text k n then some v else get_entry d n

  unfoldable pub set_entry : Text → Option A → List (Text × Option A) → List (Text × Option A)
  set_entry n v [] = (n, v) ∷ []
  set_entry n v ((k, w) ∷ d) =
      let rest = set_entry n v d in if eq_text k n then (k, v) ∷ d else (k, w) ∷ rest

  -- One turn of the loop of `_get_dict_members`
  unfoldable pub add_member : Text → A → List (Text × Option A) → List (Text × Option A)
  add_member n m d = elim (get_entry d n) [
    | none ↦ set_entry n (some m) d
    | some v ↦ set_entry n none d
  ]

-- The raise of what `get` finds, where it is a class.
abbrev pub raise_errors : {A : Type 0} → Option (Option A) → Result A
raise_errors none = raises no_such_member
raise_errors (some none) = raises duplicate
raise_errors (some (some m)) = returns m

-- The `try` of `has_member`, which catches `NoSuchMember` alone
abbrev pub catch_missing : {A : Type 0} → Result A → Result Bool
catch_missing (returns m) = returns true
catch_missing (raises no_such_member) = returns false
catch_missing (raises duplicate) = raises duplicate
catch_missing (raises parsing_error) = raises parsing_error
catch_missing (raises attribute_error) = raises attribute_error
catch_missing (raises no_class) = raises no_class
catch_missing (raises index_error) = raises index_error
catch_missing (raises file_error) = raises file_error

unfoldable pub is_empty : Text → Bool
is_empty [] = true
is_empty (c ∷ s) = false

module _ {A Cat : Type 0} (objs : Objects A Cat) where
  unfoldable pub only : Cat → List (Option A) → List (Option A)
  only cat [] = []
  only cat (none ∷ ms) = only cat ms
  only cat (some m ∷ ms) =
      let rest = only cat ms in if objs.includes cat m then some m ∷ rest else rest

  unfoldable pub in_category : Option Cat → A → Result (List (Option A))
  in_category none a = objs.members a
  in_category (some cat) a = elim (objs.members a) [
    | raises e ↦ raises e
    | returns ms ↦ returns (only cat ms)
  ]

  unfoldable pub dict_members :
      List (Option A) → List (Text × Option A) → Result (List (Text × Option A))
  dict_members [] d = returns d
  dict_members (none ∷ ms) d = raises attribute_error
  dict_members (some m ∷ ms) d = elim (objs.name m) [
    | raises e ↦ raises e
    | returns n ↦ dict_members ms (add_member n m d)
  ]

  unfoldable pub get_dict_members : Option Cat → A → Result (List (Text × Option A))
  get_dict_members cat a = elim (in_category cat a) [
    | raises e ↦ raises e
    | returns ms ↦ dict_members ms []
  ]

  -- `_get_dict_members(cat).get(first, NoSuchMember)`, and the raise of what is a class
  unfoldable pub get_first : Option Cat → A → Text → Result A
  get_first cat a first = elim (get_dict_members cat a) [
    | raises e ↦ raises e
    | returns d ↦ raise_errors (get_entry d first)
  ]

  -- `get_member` on the bits of a name. The rest is joined, tested, and split again by the recursive
  -- call, which gives the same bits.
  unfoldable pub get_bits : Option Cat → A → Text → List Text → Result A
  get_bits cat a first [] = get_first cat a first
  get_bits cat a first (b ∷ bs) = elim (get_first cat a first) [
    | raises e ↦ raises e
    | returns m ↦ if is_empty (join (codes "::") (b ∷ bs)) then returns m else get_bits cat m b bs
  ]

  unfoldable pub get_member : Option Cat → A → Text → Result A
  get_member cat a name = elim (split_colons name) [
    | [] ↦ get_bits cat a [] []
    | first ∷ rest ↦ get_bits cat a first rest
  ]

  -- `has_member`
  unfoldable pub has_member : Option Cat → A → Text → Result Bool
  has_member cat a name = catch_missing (get_member cat a name)
