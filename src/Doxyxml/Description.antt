-- ===== src/Doxyxml/Description.antt =====
-- doxyxml/text.py, and the parts of doxyxml/doxyindex.py that read descriptions and parameters.
pub mod Breaks
use aegir_sdr.Common.{
  Bool, true, false, Option, none, some, List, [], ◌∷◌, ◌++◌, Text, codes, eq_text, strip, join,
  if◌then◌else◌,
}
use aegir_sdr.Doxyxml.Base.{no_class, index_error, Result, raises, returns}

-- What a description is made of: an object with `content` or `content_`, one with a `value`, a string,
-- and anything else. The text is the `name` of an object, where it has one.
mutual
  pub data Bit : Type 0 where
    content : Option Text → Bits → Bit
    value : Option Text → Bit → Bit
    string : Text → Bit
    unknown : Bit

  pub data Bits : Type 0 where
    nil : Bits
    cons : Bit → Bits → Bits

abbrev pub is_para : Option Text → Bool
is_para none = false
is_para (some name) = eq_text name (codes "para")

-- The line breaks behind a paragraph
abbrev pub add_breaks : Option Text → Result Text → Result Text
add_breaks name (raises e) = raises e
add_breaks name (returns t) = returns (if is_para name then t ++ codes "\n\n" else t)

abbrev pub add_text : Result Text → Result Text → Result Text
add_text (raises e) rest = raises e
add_text (returns t) (raises e) = raises e
add_text (returns t) (returns u) = returns (t ++ u)

unfoldable mutual
  pub description_bit : Bit → Result Text
  description_bit (content name bits) = add_breaks name (description_bits bits)
  description_bit (value name bit) = add_breaks name (description_bit bit)
  description_bit (string s) = returns s
  description_bit unknown = raises no_class

  -- `''.join(contents)`
  pub description_bits : Bits → Result Text
  description_bits nil = returns []
  description_bits (cons b bs) = add_text (description_bit b) (description_bits bs)

abbrev strip_result : Result Text → Result (Option Text)
strip_result (raises e) = raises e
strip_result (returns t) = returns (some (strip t))

unfoldable pub description : Option Bit → Result (Option Text)
description none = returns none
description (some b) = strip_result (description_bit b)

-- `DoxyCompMem.set_descriptions`: the brief and the detailed description of the data
unfoldable pub set_descriptions : Option Bit → Option Bit → Result (Option Text × Option Text)
set_descriptions brief detailed = elim (description brief) [
  | raises e ↦ raises e
  | returns bd ↦ elim (description detailed) [ raises e ↦ raises e | returns dd ↦ returns (bd, dd) ]
]

-- What is read of a `parameteritem`.
pub record ParameterItem : Type 0 where
  pub parameternamelist : List (List Bit)
  pub parameterdescription : Option Bit

abbrev pub flatten_names : List (List Bit) → List Bit
flatten_names [] = []
flatten_names (ns ∷ nss) = ns ++ flatten_names nss

unfoldable pub describe_names : List Bit → Result (List (Option Text))
describe_names [] = returns []
describe_names (b ∷ bs) = elim (description (some b)) [
  | raises e ↦ raises e
  | returns n ↦ elim (describe_names bs) [ raises e ↦ raises e | returns ns ↦ returns (n ∷ ns) ]
]

-- `DoxyParameterItem._parse`: the first name, and the description
unfoldable pub parse_parameter_item : ParameterItem → Result (Option Text × Option Text)
parse_parameter_item item = elim (describe_names (flatten_names item.parameternamelist)) [
  | raises e ↦ raises e
  | returns [] ↦ raises index_error
  | returns (n ∷ ns) ↦ elim (description item.parameterdescription) [
    | raises e ↦ raises e
    | returns d ↦ returns (n, d)
  ]
]

-- `DoxyCompMem.set_parameters`, on the parameter lists of those contents that have them
abbrev pub flatten_items : List (List ParameterItem) → List ParameterItem
flatten_items [] = []
flatten_items (is ∷ iss) = is ++ flatten_items iss

unfoldable pub parse_items : List ParameterItem → Result (List (Option Text × Option Text))
parse_items [] = returns []
parse_items (i ∷ is) = elim (parse_parameter_item i) [
  | raises e ↦ raises e
  | returns p ↦ elim (parse_items is) [ raises e ↦ raises e | returns ps ↦ returns (p ∷ ps) ]
]

unfoldable pub set_parameters :
    List (List ParameterItem) → Result (List (Option Text × Option Text))
set_parameters lists = parse_items (flatten_items lists)

-- `if text: descriptions.append(text)`
abbrev if_truthy : Option Text → List Text → List Text
if_truthy none rest = rest
if_truthy (some []) rest = rest
if_truthy (some (c ∷ s)) rest = (c ∷ s) ∷ rest

-- `DoxyParam.description`
unfoldable pub param_description : Option Text → Option Text → Text
param_description brief detailed = join (codes "\n\n") (if_truthy brief (if_truthy detailed []))

-- A parameter of a function: one that its comment describes, or one that its declaration names, whose own
-- descriptions are read when they are asked.
pub data Param : Type 0 where
  described : Option Text → Option Text → Param
  declared : Option Text → Param

abbrev described_params : List (Option Text × Option Text) → List Param
described_params [] = []
described_params ((n, d) ∷ ps) = described n d ∷ described_params ps

abbrev declared_params : List (Option Text) → List Param
declared_params [] = []
declared_params (n ∷ ns) = declared n ∷ declared_params ns

-- `if not self._data['params']`
abbrev function_params : List (Option Text × Option Text) → List (Option Text) → List Param
function_params [] declnames = declared_params declnames
function_params (p ∷ ps) declnames = described_params (p ∷ ps)

-- `DoxyFunction._parse`: the two descriptions and the parameters
unfoldable pub parse_function :
    Option Bit
    → Option Bit
    → List (List ParameterItem)
    → List (Option Text)
    → Result (Option Text × Option Text × List Param)
parse_function brief detailed lists declnames = elim (set_descriptions brief detailed) [
  | raises e ↦ raises e
  | returns (bd, dd) ↦ elim (set_parameters lists) [
    | raises e ↦ raises e
    | returns ps ↦ returns (bd, dd, function_params ps declnames)
  ]
]

-- `DoxyParam._parse`: the two descriptions and `declname`
unfoldable pub parse_param :
    Option Bit → Option Bit → Option Text → Result (Option Text × Option Text × Option Text)
parse_param brief detailed declname = elim (set_descriptions brief detailed) [
  | raises e ↦ raises e
  | returns (bd, dd) ↦ returns (bd, dd, declname)
]
