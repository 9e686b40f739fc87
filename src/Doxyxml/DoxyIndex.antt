-- ===== src/Doxyxml/DoxyIndex.antt =====
-- doxyxml/doxyindex.py, and the conversions of doxyxml/base.py: which objects stand for the compounds
-- of a directory of doxygen's files and for their members. A file of the directory is an argument: what its
-- reading raises, or `none` where expat refuses it, and otherwise what the code reads of its `compounddef`.
pub mod Unique
pub mod Broken
pub mod Listed
pub mod Files
use aegir_sdr.Common.{
  ℕ, Bool, true, false, ◌||◌, Option, none, some, List, [], ◌∷◌, ◌++◌, Text, codes, eq_text,
  ends_with, any, if◌then◌else◌,
}
use aegir_sdr.Doxyxml.Description.{Bit, ParameterItem, set_descriptions, set_parameters}
use aegir_sdr.Doxyxml.Base.{
  Error, duplicate, no_such_member, parsing_error, attribute_error, no_class, index_error,
  file_error, Result, raises, returns, Objects,
}

-- The subclasses that `get_cls` can answer.
pub data Class : Type 0 where
  doxy_function : Class
  doxy_class : Class
  doxy_file : Class
  doxy_namespace : Class
  doxy_group : Class
  doxy_friend : Class
  doxy_other : Class

-- `Base.mem_classes`, in the order of the calls of `append`
abbrev pub mem_classes : List Class
mem_classes =
    doxy_function ∷ doxy_class ∷ doxy_file ∷ doxy_namespace ∷ doxy_group ∷ doxy_friend ∷ doxy_other
    ∷ []

-- `DoxyOther.kinds`
abbrev pub kinds : List Text
kinds =
    codes "variable"
    ∷ codes "struct"
    ∷ codes "union"
    ∷ codes "define"
    ∷ codes "typedef"
    ∷ codes "enum"
    ∷ codes "dir"
    ∷ codes "page"
    ∷ codes "signal"
    ∷ codes "slot"
    ∷ codes "property"
    ∷ []

abbrev pub can_parse : Class → Text → Bool
can_parse doxy_function kind = eq_text kind (codes "function")
can_parse doxy_class kind = eq_text kind (codes "class")
can_parse doxy_file kind = eq_text kind (codes "file")
can_parse doxy_namespace kind = eq_text kind (codes "namespace")
can_parse doxy_group kind = eq_text kind (codes "group")
can_parse doxy_friend kind = eq_text kind (codes "friend")
can_parse doxy_other kind = any (eq_text kind) kinds

unfoldable pub first_class : List Class → Text → Option Class
first_class [] kind = none
first_class (c ∷ cs) kind = elim (can_parse c kind) [ true ↦ some c | false ↦ first_class cs kind ]

-- `get_cls`; `none` is its `Exception`.
unfoldable pub get_cls : Text → Option Class
get_cls kind = first_class mem_classes kind

-- What is read of a `memberdef`, of a compound of the index, and of a `compounddef`.
pub record MemberDef : Type 0 where
  pub kind : Text
  pub name : Text

pub record IndexCompound : Type 0 where
  pub kind : Text
  pub refid : Text
  pub name : Text

pub record CompoundDef : Type 0 where
  pub sectiondef : List (List MemberDef)
  pub innergroup : List Text
  pub innerclass : List Text

-- What is read of the comment of a `compounddef`: the two descriptions, and the `parameteritem`s of each
-- `parameterlist` that the contents of the detailed one have.
pub record Comment : Type 0 where
  pub briefdescription : Option Bit
  pub detaileddescription : Option Bit
  pub parameterlists : List (List ParameterItem)

-- What is read of a file.
abbrev pub Library : Type 0
Library = Text → Result (Option (CompoundDef × Comment))

-- An object: its class, the `refid` it is stored under, and the name of its `_parse_data`.
pub record Object : Type 0 where
  pub cls : Class
  pub refid : Option Text
  pub name : Option Text

-- `convert_mem` of a `memberdef`, which has no `refid`, and of a compound of the index; `none` is the
-- `None` that it answers behind an exception.
unfoldable pub convert_member : MemberDef → Option Object
convert_member m = elim (get_cls m.kind) [
  | none ↦ none
  | some cls ↦ some (record { cls = cls; refid = none; name = some m.name })
]

unfoldable pub convert_compound : IndexCompound → Option Object
convert_compound c = elim (get_cls c.kind) [
  | none ↦ none
  | some cls ↦ some (record { cls = cls; refid = some c.refid; name = some c.name })
]

-- `top._refs`: the objects that are stored under a `refid`.
unfoldable pub find_ref : List (Text × Object) → Text → Option Object
find_ref [] refid = none
find_ref ((r, o) ∷ refs) refid = if eq_text r refid then some o else find_ref refs refid

-- `add_ref` of the compounds of an index, which lists no `refid` twice
unfoldable pub index_refs : List IndexCompound → List (Text × Object)
index_refs [] = []
index_refs (c ∷ cs) = elim (convert_compound c) [
  | none ↦ index_refs cs
  | some o ↦ (c.refid, o) ∷ index_refs cs
]

-- `from_refid`: the object that is stored, or a new one, which has no `_parse_data`
unfoldable pub from_refid : List (Text × Object) → Class → Text → Object
from_refid refs cls refid = elim (find_ref refs refid) [
  | some o ↦ o
  | none ↦ record { cls = cls; refid = some refid; name = none }
]

abbrev pub flatten : List (List MemberDef) → List MemberDef
flatten [] = []
flatten (s ∷ ss) = s ++ flatten ss

-- The loop of `process_memberdefs`; all its objects are of one class, so the name decides.
unfoldable pub add_uniques : List Text → List MemberDef → List (Option Object)
add_uniques uniques [] = []
add_uniques uniques (m ∷ ms) = elim (any (eq_text m.name) uniques) [
  | true ↦ add_uniques uniques ms
  | false ↦ convert_member m ∷ add_uniques (m.name ∷ uniques) ms
]

unfoldable pub process_memberdefs : CompoundDef → List (Option Object)
process_memberdefs d = add_uniques [] (flatten d.sectiondef)

abbrev pub from_refids : List (Text × Object) → Class → List Text → List (Option Object)
from_refids refs cls [] = []
from_refids refs cls (r ∷ rs) = some (from_refid refs cls r) ∷ from_refids refs cls rs

-- `set_parameters`, which reads the detailed description unasked
abbrev pub comment_parameters : Comment → Result (List (Option Text × Option Text))
comment_parameters c = elim c.detaileddescription [
  | none ↦ raises attribute_error
  | some b ↦ set_parameters c.parameterlists
]

-- What is stored of a comment: the two descriptions, and the parameters of a class.
abbrev pub Described : Type 0
Described = Option Text × Option Text

abbrev pub read_descriptions : Comment → Result Described
read_descriptions c = set_descriptions c.briefdescription c.detaileddescription

abbrev pub with_parameters :
    Described
    → Result (List (Option Text × Option Text))
    → Result (Described × List (Option Text × Option Text))
with_parameters d (raises e) = raises e
with_parameters d (returns ps) = returns (d, ps)

abbrev pub add_parameters :
    Comment → Result Described → Result (Described × List (Option Text × Option Text))
add_parameters c (raises e) = raises e
add_parameters c (returns d) = with_parameters d (comment_parameters c)

-- `set_descriptions` and `set_parameters` of a class
abbrev pub read_comment : Comment → Result (Described × List (Option Text × Option Text))
read_comment c = add_parameters c (read_descriptions c)

-- What comes behind them in `_parse`
abbrev pub behind_comment {ℓ ℓ'} : {A : Type ℓ} {B : Type ℓ'} → Result A → Result B → Result B
behind_comment (raises e) r = raises e
behind_comment (returns a) r = r

-- What `members()` finds behind the `_parse` of the four subclasses, on the file of the object. The
-- title of a group is a text, or nothing, and is read without an exception. `DoxyFile` and
-- `DoxyNamespace` read the data before they ask for an error.
abbrev pub parse_class : Option (CompoundDef × Comment) → Result (List (Option Object))
parse_class none = raises parsing_error
parse_class (some (d, c)) = behind_comment (read_comment c) (returns (process_memberdefs d))

abbrev pub parse_file : Option (CompoundDef × Comment) → Result (List (Option Object))
parse_file none = raises attribute_error
parse_file (some (d, c)) = behind_comment (read_descriptions c) (returns (process_memberdefs d))

abbrev pub parse_namespace : Option (CompoundDef × Comment) → Result (List (Option Object))
parse_namespace none = raises attribute_error
parse_namespace (some (d, c)) =
    behind_comment (read_descriptions c) (returns (process_memberdefs d))

abbrev pub parse_group :
    List (Text × Object) → Option (CompoundDef × Comment) → Result (List (Option Object))
parse_group refs none = raises parsing_error
parse_group refs (some (d, c)) = returns (
    from_refids refs doxy_group d.innergroup
    ++ (from_refids refs doxy_class d.innerclass ++ process_memberdefs d))

-- What is done with the data, if it is retrieved.
abbrev pub parse_retrieved :
    (Option (CompoundDef × Comment) → Result (List (Option Object)))
    → Result (Option (CompoundDef × Comment))
    → Result (List (Option Object))
parse_retrieved parse (raises e) = raises e
parse_retrieved parse (returns o) = parse o

-- `retrieve_data`, where the object has a `refid`
abbrev pub retrieve_data :
    Library
    → Option Text
    → (Option (CompoundDef × Comment) → Result (List (Option Object)))
    → Result (List (Option Object))
retrieve_data library none parse = raises attribute_error
retrieve_data library (some refid) parse = parse_retrieved parse (library refid)

abbrev pub is_class : Class → Class → Bool
is_class doxy_function doxy_function = true
is_class doxy_class doxy_class = true
is_class doxy_file doxy_file = true
is_class doxy_namespace doxy_namespace = true
is_class doxy_group doxy_group = true
is_class doxy_friend doxy_friend = true
is_class doxy_other doxy_other = true
is_class _ _ = false

-- `name()` without `_parse_data`: what `check_parsed` raises, or the exception of what comes behind it. That
-- asks the retrieved data for the `compounddef`, which there is not if expat refused the file, and the
-- `compounddef` for an attribute `name`, which its class does not have.
abbrev pub unnamed : Result (List (Option Object)) → Result Text
unnamed (returns ms) = raises attribute_error
unnamed (raises parsing_error) = raises attribute_error
unnamed (raises duplicate) = raises duplicate
unnamed (raises no_such_member) = raises no_such_member
unnamed (raises attribute_error) = raises attribute_error
unnamed (raises no_class) = raises no_class
unnamed (raises index_error) = raises index_error
unnamed (raises file_error) = raises file_error

-- One turn of the loop of `DoxyIndex._parse`, in front of the rest of it.
abbrev pub add_rest :
    Result (List (Option Object))
    → List (Option Object) × Option Error
    → List (Option Object) × Option Error
add_rest (raises e) rest = ([], some e)
add_rest (returns ms) (rest, e) = (ms ++ rest, e)

-- The files, and what is stored under each `refid` when a group is read.
module _ (library : Library) (refs : List (Text × Object)) where
  unfoldable pub members : Object → Result (List (Option Object))
  members o = elim o.cls [
    | doxy_class ↦ retrieve_data library o.refid parse_class
    | doxy_file ↦ retrieve_data library o.refid parse_file
    | doxy_namespace ↦ retrieve_data library o.refid parse_namespace
    | doxy_group ↦ retrieve_data library o.refid (parse_group refs)
    | doxy_function ↦ returns []
    | doxy_friend ↦ returns []
    | doxy_other ↦ returns []
  ]

  -- `name()` of an object that is not parsed yet
  unfoldable pub object_name : Object → Result Text
  object_name o = elim o.name [ some n ↦ returns n | none ↦ unnamed (members o) ]

  abbrev pub doxy_objects : Objects Object Class
  doxy_objects = record {
    name = object_name;
    members = members;
    includes = λ cls o. is_class cls o.cls;
  }

  -- The objects that one compound adds to the index.
  unfoldable pub add_with_members : Option Object → Result (List (Option Object))
  add_with_members none = raises attribute_error
  add_with_members (some o) = elim (members o) [
    | raises e ↦ raises e
    | returns ms ↦ returns (ms ++ some o ∷ [])
  ]

  unfoldable pub add_by_class : Class → IndexCompound → Result (List (Option Object))
  add_by_class doxy_file c = elim (ends_with c.name (codes ".h")) [
    | true ↦ add_with_members (convert_compound c)
    | false ↦ returns []
  ]
  add_by_class doxy_namespace c = add_with_members (convert_compound c)
  add_by_class _ c = returns (convert_compound c ∷ [])

  unfoldable pub add_compound : IndexCompound → Result (List (Option Object))
  add_compound c = elim (get_cls c.kind) [ none ↦ raises no_class | some cls ↦ add_by_class cls c ]

  -- `DoxyIndex._parse`: the members that it leaves, and what it raises. `_parsed` is set at its start, so
  -- these are the members that every later call finds.
  unfoldable pub parse_index : List IndexCompound → List (Option Object) × Option Error
  parse_index [] = ([], none)
  parse_index (c ∷ cs) = add_rest (add_compound c) (parse_index cs)
