-- ===== src/Doxyxml/Index/Literal.antt =====
-- The `exportLiteral` of the three classes of generated/indexsuper.py; `none` is an exception.
use aegir_sdr.Common.{
  ℕ, suc, Bool, true, false, ◌&&◌, Bool-cases, inl, inr, Option, Option-cases, none, some, List, [],
  ◌∷◌, ◌++◌, ◌≡◌, refl, ◌∙◌, Text, codes, all, replace, if◌then◌else◌,
}
use aegir_sdr.Doxyxml.Quote.{quote_python, has}
use aegir_sdr.Doxyxml.Index.{MemberType, CompoundType, DoxygenType}
use aegir_sdr.Doxyxml.Index.Export.{show_indent, is_ascii, encoded, and_then, has_value}
use aegir_sdr.Doxyxml.Index.Export.Ascii.{
  both, &&-true, has_value-and_then, has_value-encoded, is_ascii-replace, is_ascii-enclosed,
}

-- `if self.f is not None: showIndent(...); outfile.write(...)`
abbrev pub line_of : ℕ → Text → Option Text → Text → Text
line_of level before none after = []
line_of level before (some v) after = show_indent level ++ (before ++ (v ++ after))

-- `exportLiteralAttributes` of `MemberType` and of `CompoundType`
unfoldable pub literal_attributes : ℕ → Option Text → Option Text → Text
literal_attributes level kind refid =
    line_of level (codes "kind = \"") kind (codes "\",\n")
    ++ line_of level (codes "refid = ") refid (codes ",\n")

-- The line of a name; `quote_python` of `None` is an `AttributeError`.
unfoldable pub literal_name : ℕ → Option Text → Option Text
literal_name level none = none
literal_name level (some n) =
    encoded (show_indent level ++ codes "name=") (quote_python n) (codes ",\n")

-- `MemberType.exportLiteral`
unfoldable pub literal_member : ℕ → MemberType → Option Text
literal_member level m =
    and_then (some (literal_attributes (suc level) m.kind m.refid))
      (if has_value m.name then literal_name (suc level) m.name else some [])

unfoldable pub literal_members : ℕ → List MemberType → Option Text
literal_members level [] = some []
literal_members level (m ∷ ms) = and_then (some (show_indent level ++ codes "model_.member(\n")) (
    and_then (literal_member level m)
      (and_then (some (show_indent level ++ codes "),\n")) (literal_members level ms)))

-- `CompoundType.exportLiteral`
unfoldable pub literal_compound : ℕ → CompoundType → Option Text
literal_compound level c = and_then (some (literal_attributes (suc level) c.kind c.refid)) (
    and_then (literal_name (suc level) c.name) (
      and_then (some (show_indent (suc level) ++ codes "member=[\n")) (
        and_then (literal_members (suc (suc level)) c.member)
          (some (show_indent (suc level) ++ codes "],\n")))))

unfoldable pub literal_compounds : ℕ → List CompoundType → Option Text
literal_compounds level [] = some []
literal_compounds level (c ∷ cs) =
    and_then (some (show_indent level ++ codes "model_.compound(\n")) (
      and_then (literal_compound level c)
        (and_then (some (show_indent level ++ codes "),\n")) (literal_compounds level cs)))

-- `DoxygenType.exportLiteral`
unfoldable pub literal_doxygen : ℕ → DoxygenType → Option Text
literal_doxygen level d =
    and_then (some (line_of (suc level) (codes "version = ") d.version (codes ",\n"))) (
      and_then (some (show_indent (suc level) ++ codes "compound=[\n")) (
        and_then (literal_compounds (suc (suc level)) d.compound)
          (some (show_indent (suc level) ++ codes "],\n"))))

is_ascii-quote_python : (s : Text) → is_ascii (quote_python s) ≡ is_ascii s
unfolding quote_python
is_ascii-quote_python s = elim (Bool-cases (has b'\'' s)) [
  | inr off ↦ elim (Bool-cases (has 10 s)) [
    | inl break ↦ rw (off, break) (is_ascii-enclosed (codes "'''") s refl)
    | inr flat ↦ rw (off, flat) (is_ascii-enclosed (codes "'") s refl)
  ]
  | inl single ↦ elim (Bool-cases (has 10 s)) [
    | inl break ↦
        rw (single, break)
          (is_ascii-enclosed (codes "\"\"\"") (replace s b'"' (codes "\\\"")) refl
            ∙ is_ascii-replace s b'"' (codes "\\\"") refl refl)
    | inr flat ↦
        rw (single, flat)
          (is_ascii-enclosed (codes "\"") (replace s b'"' (codes "\\\"")) refl
            ∙ is_ascii-replace s b'"' (codes "\\\"") refl refl)
  ]
]

abbrev pub name_present : Option Text → Bool
name_present none = false
name_present (some n) = is_ascii n

abbrev pub member_literal : MemberType → Bool
member_literal m = elim m.name [ none ↦ true | some n ↦ is_ascii n ]

abbrev pub compound_literal : CompoundType → Bool
compound_literal c = name_present c.name && all member_literal c.member

has_value-literal_name :
    (level : ℕ) (n : Option Text) → has_value (literal_name level n) ≡ name_present n
unfolding literal_name
has_value-literal_name level none = refl
has_value-literal_name level (some n) =
    has_value-encoded (show_indent level ++ codes "name=") (quote_python n) (codes ",\n")
    ∙ is_ascii-quote_python n

has_value-literal_member :
    (level : ℕ) (m : MemberType) → has_value (literal_member level m) ≡ member_literal m
unfolding literal_member
has_value-literal_member level m = elim (Option-cases m.name) [
  | inl at ↦
      rw (at, literal_member, member_literal)
        (has_value-and_then (some (literal_attributes (suc level) m.kind m.refid)) (some []))
  | inr (n, at) ↦
      rw (at, literal_member, member_literal)
        (has_value-and_then (some (literal_attributes (suc level) m.kind m.refid)) _
          ∙ has_value-literal_name (suc level) (some n))
]

-- A text in front, and one behind, can always be written.
has_value-front : (s : Text) (o : Option Text) → has_value (and_then (some s) o) ≡ has_value o
has_value-front s o = has_value-and_then (some s) o

has_value-back : (o : Option Text) (s : Text) → has_value (and_then o (some s)) ≡ has_value o
has_value-back o s = has_value-and_then o (some s) ∙ &&-true (has_value o)

has_value-literal_members :
    (level : ℕ) (ms : List MemberType)
    → has_value (literal_members level ms) ≡ all member_literal ms
unfolding literal_members
has_value-literal_members level [] = refl
has_value-literal_members level (m ∷ ms) =
    has_value-front _ _
    ∙ has_value-and_then (literal_member level m) _
    ∙ both (has_value-literal_member level m)
        (has_value-front _ _ ∙ has_value-literal_members level ms)

has_value-literal_compound :
    (level : ℕ) (c : CompoundType) → has_value (literal_compound level c) ≡ compound_literal c
unfolding literal_compound
has_value-literal_compound level c =
    has_value-front _ _
    ∙ has_value-and_then (literal_name (suc level) c.name) _
    ∙ both (has_value-literal_name (suc level) c.name) (
        has_value-front _ _
        ∙ has_value-back _ _
        ∙ has_value-literal_members (suc (suc level)) c.member)

has_value-literal_compounds :
    (level : ℕ) (cs : List CompoundType)
    → has_value (literal_compounds level cs) ≡ all compound_literal cs
unfolding literal_compounds
has_value-literal_compounds level [] = refl
has_value-literal_compounds level (c ∷ cs) =
    has_value-front _ _
    ∙ has_value-and_then (literal_compound level c) _
    ∙ both (has_value-literal_compound level c)
        (has_value-front _ _ ∙ has_value-literal_compounds level cs)

-- The literal export of an index comes to its end if and only if each compound has a name, and the names
-- of compounds, and of the members that have one, are ASCII.
pub literal_doxygen-names :
    (level : ℕ) (d : DoxygenType)
    → has_value (literal_doxygen level d) ≡ all compound_literal d.compound
unfolding literal_doxygen
literal_doxygen-names level d =
    has_value-front _ _
    ∙ has_value-front _ _
    ∙ has_value-back _ _
    ∙ has_value-literal_compounds (suc (suc level)) d.compound
