-- ===== src/Doxyxml/DoxyIndex/Files.antt =====
-- The documentation objects over the trees of a directory's files: `retrieve_data` of base.py with
-- the `parse` of generated/compound.py.
use aegir_sdr.Common.{Option, none, some, List, [], ◌∷◌, ◌++◌, codes, Text}
use aegir_sdr.Doxyxml.Base.{Result, raises, returns, file_error}
use aegir_sdr.Doxyxml.Description.{Bit, ParameterItem}
use aegir_sdr.Doxyxml.Compound.Text.{bit_of}
use aegir_sdr.Doxyxml.Compound.Object.{
  and_then, Value, missing, mixed_container, Values, Fields, get_field,
}
use aegir_sdr.Doxyxml.Compound.Build.{parse}
use aegir_sdr.Doxyxml.Compound.Read.{Element, fields_of, list_of, read_file}
use aegir_sdr.Doxyxml.DoxyIndex.{CompoundDef, Comment, Library, Object}

-- An attribute that a description can be made of; `none` is `None`.
abbrev bit_at : Fields → Text → Option Bit
bit_at fs name = elim (get_field fs name) [
  | none ↦ none
  | some missing ↦ none
  | some v ↦ some (bit_of v)
]

abbrev bits_at : Values → List Bit
bits_at Values.nil = []
bits_at (Values.cons v vs) = bit_of v ∷ bits_at vs

-- A list that an attribute holds.
abbrev values_at : Fields → Text → Values
values_at fs name = elim (list_of (get_field fs name)) [ none ↦ Values.nil | some vs ↦ vs ]

abbrev each_object {ℓ} : {A : Type ℓ} → (Fields → A) → Values → List A
each_object read Values.nil = []
each_object read (Values.cons v vs) = elim (fields_of v) [
  | none ↦ each_object read vs
  | some fs ↦ read fs ∷ each_object read vs
]

-- A `parameteritem`
abbrev item_of : Fields → ParameterItem
item_of fs = record {
  parameternamelist =
      each_object (λ names. bits_at (values_at names (codes "parametername")))
        (values_at fs (codes "parameternamelist"));
  parameterdescription = bit_at fs (codes "parameterdescription");
}

-- The lists of the `parameterlist` of one content, where it has one
abbrev lists_of : Option Fields → List (List ParameterItem) → List (List ParameterItem)
lists_of none rest = rest
lists_of (some fs) rest =
    each_object (λ pl. each_object item_of (values_at pl (codes "parameteritem")))
      (values_at fs (codes "parameterlist"))
    ++ rest

-- `ddc.value` of each `ddc` in `content_`
abbrev lists_in : Values → List (List ParameterItem)
lists_in Values.nil = []
lists_in (Values.cons (mixed_container c name v) vs) = lists_of (fields_of v) (lists_in vs)
lists_in (Values.cons v vs) = lists_in vs

abbrev lists_at : Option Fields → List (List ParameterItem)
lists_at none = []
lists_at (some fs) = lists_in (values_at fs (codes "content_"))

abbrev comment_in : Fields → Comment
comment_in fs = record {
  briefdescription = bit_at fs (codes "briefdescription");
  detaileddescription = bit_at fs (codes "detaileddescription");
  parameterlists = lists_at (and_then (get_field fs (codes "detaileddescription")) fields_of);
}

-- The comment of a file's `compounddef`
abbrev pub comment_of : Value → Option Comment
comment_of v = and_then (fields_of v) (λ fs.
    and_then (get_field fs (codes "compounddef"))
      (λ w. and_then (fields_of w) (λ gs. some (comment_in gs))))

abbrev pub both : Value → Option (CompoundDef × Comment)
both v = and_then (read_file v) (λ d. and_then (comment_of v) (λ c. some (d, c)))

-- What is read of a file: an exception of what builds its objects, or an attribute that is no text.
abbrev pub or_file_error : Option (CompoundDef × Comment) → Result (Option (CompoundDef × Comment))
or_file_error none = raises file_error
or_file_error (some x) = returns (some x)

abbrev read_element : Option Element → Result (Option (CompoundDef × Comment))
read_element none = returns none
read_element (some e) = or_file_error (and_then (parse e.0 e.1) both)

-- What is read of the file of a `refid`, given the root elements of the files; `none` is a file that expat
-- refuses.
abbrev pub library_of : (Text → Option Element) → Library
library_of files refid = read_element (files refid)
