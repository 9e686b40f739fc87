-- ===== src/Pydoc.antt =====
-- gr-Aegir/docs/doxygen/update_pydoc.py: the docstrings that are made of the documentation objects. The
-- objects of a directory are a record of what the code asks of them; its searches raise what
-- those of doxyxml/base.py raise.
pub mod Names
pub mod Literal
pub mod Scrape
pub mod Template
pub mod Substitute
pub mod Written
pub mod Entries
mod Tests
use aegir_sdr.Common.{
  ℕ, Bool, true, false, not, ◌&&◌, Option, none, some, List, [], ◌∷◌, ◌++◌, Text, codes, ltb, ◌==◌,
  eq_text, any, replace, split_on, join, strip, contains, starts_with, if◌then◌else◌,
}
use aegir_sdr.Doxyxml.Base.{
  Error, duplicate, no_such_member, parsing_error, attribute_error, no_class, Result, raises,
  returns, is_empty,
}

abbrev pub tail_bits : List Text → List Text
tail_bits [] = []
tail_bits (b ∷ bs) = bs

abbrev pub head_bit : List Text → Text
head_bit [] = []
head_bit (b ∷ bs) = b

unfoldable pub py_name : Text → Text
py_name name = join (codes "_") (tail_bits (split_on b'_' name))

unfoldable pub make_name : Text → Text
make_name name =
    head_bit (split_on b'_' name)
    ++ (codes "_make_" ++ join (codes "_") (tail_bits (split_on b'_' name)))

-- `text.encode('ascii', 'replace')`
unfoldable pub encode_replace : Text → Text
encode_replace [] = []
encode_replace (c ∷ s) = (if ltb c 128 then c else b'?') ∷ encode_replace s

unfoldable pub utoascii : Option Text → Text
utoascii none = []
utoascii (some text) =
    replace (replace (encode_replace text) b'\\' (codes "\\\\\\\\")) b'"' (codes "\\\"")

-- What the code reads of an object; a description that is absent is `None`.
pub record Doc : Type 0 where
  pub name : Text
  -- `_parse_data.definition`, if there is one
  pub definition : Option Text
  pub brief_description : Option Text
  pub detailed_description : Option Text
  pub params : List (Text × Text)

pub record Klass : Type 0 where
  pub doc : Doc
  pub error : Bool
  -- `in_category(DoxyFunction)`
  pub functions : Result (List Doc)
  pub get_function : Text → Result Doc
  pub has_friend : Text → Result Bool
  pub has_function : Text → Result Bool
  pub has_other : Text → Result Bool

pub record Directory : Type 0 where
  pub functions : List Doc
  pub classes : List Klass
  pub get_function : Text → Result Doc
  pub has_function : Text → Result Bool
  pub get_file : Text → Result Doc

infixl 1 ◌then_with◌
abbrev pub ◌then_with◌ {ℓ κ} : {A : Type ℓ} {B : Type κ} → Result A → (A → Result B) → Result B
raises e then_with f = raises e
returns a then_with f = f a

-- `includes` of `Block` and of `Block2`, on an object that is a class
unfoldable pub is_block : Directory → Klass → Result Bool
is_block di k = elim k.error [
  | true ↦ returns false
  | false ↦ k.has_friend (make_name k.doc.name) then_with λ found.
      if found then returns true else di.has_function (make_name k.doc.name)
]

unfoldable pub is_block2 : Klass → Result Bool
is_block2 k = elim k.error [
  | true ↦ returns false
  | false ↦ k.has_function (codes "make") then_with λ found.
      if found then k.has_other (codes "sptr") else returns false
]

-- `description.append(d)` if there is something to append
abbrev pub if_any : Text → List Text → List Text
if_any [] rest = rest
if_any (c ∷ s) rest = (c ∷ s) ∷ rest

unfoldable pub combine_descriptions : Doc → Result Text
combine_descriptions obj = elim obj.brief_description [
  | none ↦ raises attribute_error
  | some bd ↦ elim obj.detailed_description [
    | none ↦ raises attribute_error
    | some dd ↦
        returns
          (strip (utoascii (some (join (codes "\n\n") (if_any (strip bd) (if_any (strip dd) []))))))
  ]
]

abbrev param_lines : List (Text × Text) → List Text
param_lines [] = []
param_lines ((name, description) ∷ ps) =
    (codes "    " ++ (name ++ (codes " : " ++ description))) ∷ param_lines ps

unfoldable pub format_params : List (Text × Text) → Text
format_params params = join (codes "\n") (codes "Args:" ∷ param_lines params)

unfoldable pub with_params : Text → List (Text × Text) → Text
with_params description [] = description
with_params description (p ∷ ps) =
    description ++ (codes "\n\n" ++ utoascii (some (format_params (p ∷ ps))))

abbrev pub last_bit : List Text → Text
last_bit [] = []
last_bit (b ∷ []) = b
last_bit (b ∷ c ∷ bs) = last_bit (c ∷ bs)

-- The name of an entry: the argument, or the last word of the definition, or the name of the object
unfoldable pub entry_name : Doc → Option Text → Text
entry_name obj (some name) = name
entry_name obj none = elim obj.definition [ none ↦ obj.name | some d ↦ last_bit (split_on b' ' d) ]

-- `make_entry`, with its default template; an operator has no entry.
unfoldable pub make_entry :
    Doc → Option Text → Option Text → List (Text × Text) → Result (List (Text × Text))
make_entry obj name description params = elim (contains (entry_name obj name) (codes "operator ")) [
  | true ↦ returns []
  | false ↦ elim description [
    | some d ↦ returns ((entry_name obj name, with_params d params) ∷ [])
    | none ↦ combine_descriptions obj then_with λ d.
        returns ((entry_name obj name, with_params d params) ∷ [])
  ]
]

-- A dictionary, and its `update`.
unfoldable pub set_item : Text → Text → List (Text × Text) → List (Text × Text)
set_item n v [] = (n, v) ∷ []
set_item n v ((k, w) ∷ d) = elim (eq_text k n) [
  | true ↦ (k, v) ∷ d
  | false ↦ (k, w) ∷ set_item n v d
]

unfoldable pub update : List (Text × Text) → List (Text × Text) → List (Text × Text)
update d [] = d
update d ((k, v) ∷ es) = update (set_item k v d) es

abbrev pub is_in : Text → List Text → Bool
is_in n names = any (eq_text n) names

-- The loop of `make_class_entry` over the functions
unfoldable pub add_methods :
    Text → List Text → List Doc → List (Text × Text) → Result (List (Text × Text))
add_methods klass ignored [] output = returns output
add_methods klass ignored (f ∷ fs) output = elim (is_in f.name ignored) [
  | true ↦ add_methods klass ignored fs output
  | false ↦ make_entry f (some (klass ++ (codes "::" ++ f.name))) none [] then_with λ e.
      add_methods klass ignored fs (update output e)
]

unfoldable pub make_class_entry :
    Klass → Option Text → List Text → Option (List (Text × Text)) → Result (List (Text × Text))
make_class_entry k description ignored params =
    make_entry k.doc none description (elim params [ none ↦ k.doc.params | some ps ↦ ps ])
    then_with λ e. k.functions then_with λ fs. add_methods k.doc.name ignored fs (update [] e)

-- The `try` of `make_block_entry` around the file's description
unfoldable pub file_description : Result Doc → Result Text
file_description (returns f) = combine_descriptions f
file_description (raises no_such_member) = returns []
file_description (raises e) = raises e

unfoldable pub make_block_entry : Directory → Klass → Result (List (Text × Text))
make_block_entry di block = combine_descriptions block.doc then_with λ class_desc.
    di.get_function (make_name block.doc.name) then_with λ make_func.
    combine_descriptions make_func then_with λ make_desc.
    file_description (di.get_file (block.doc.name ++ codes ".h")) then_with λ file_desc.
    let description =
      join (codes "\n\n") (if_any class_desc (if_any make_desc (if_any file_desc []))) in
    make_class_entry block (some description) [] none then_with λ output.
    make_entry make_func none (some description) block.doc.params then_with λ e.
    returns (update output e)

unfoldable pub make_block2_entry : Klass → Result (List (Text × Text))
make_block2_entry block = combine_descriptions block.doc then_with λ class_desc.
    block.get_function (codes "make") then_with λ make_func.
    combine_descriptions make_func then_with λ make_desc.
    let description =
      class_desc ++ (codes "\n\nConstructor Specific Documentation:\n\n" ++ make_desc) in
    make_class_entry block (some description) (codes "make" ∷ []) (some make_func.params)
    then_with λ output.
        make_entry make_func (some (block.doc.name ++ codes "::make")) (some description)
          make_func.params
        then_with λ e. returns (update output e)
