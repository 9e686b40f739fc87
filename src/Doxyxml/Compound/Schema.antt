-- ===== src/Doxyxml/Compound/Schema.antt =====
-- What the classes of generated/compoundsuper.py differ in. Their methods are copies of one
-- template; a schema says what `__init__`, `buildAttributes` and `buildChildren` of a class fill in.
pub mod Structure
pub mod References
pub mod Members
pub mod MemberParts
pub mod Graphs
pub mod Sections
pub mod Internals
pub mod Paragraphs
pub mod Lists
pub mod Tables
pub mod Params
use aegir_sdr.Common.{Bool, List, Text}
use aegir_sdr.Doxyxml.Compound.Classes.{ClassName}
use aegir_sdr.Doxyxml.Compound.Object.{Fields}

-- `if attrs.get(name): self.field = attrs.get(name).value`, or `int` of that value
pub data Attribute : Type 0 where
  text_attribute : Text → Text → Attribute
  int_attribute : Text → Text → Attribute

-- What is done with a child element of a name.
pub data Rule : Type 0 where
  -- `self.field.append(obj_)` and `self.set_field(obj_)`, for an object of the class
  append_object : Text → ClassName → Rule
  set_object : Text → ClassName → Rule
  -- `self.field = name_` and `self.field.append(name_)`, for the text of the children
  set_text : Text → Rule
  append_text : Text → Rule
  -- A `MixedContainer` of an object of the class, and of a text, appended to `content_`
  mixed_object : ClassName → Rule
  mixed_simple : Rule

pub record Schema : Type 0 where
  -- The attributes behind `factory()`, with their defaults
  pub initial : Fields
  pub attributes : List Attribute
  pub rules : List (Text × Rule)
  -- Text children become text containers in `content_`.
  pub mixed_text : Bool
  -- `build` sets `valueOf_` to the empty text, and text and CDATA children are added to it.
  pub value_of : Bool
