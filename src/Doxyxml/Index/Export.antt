-- ===== src/Doxyxml/Index/Export.antt =====
-- The `export` of the three classes of generated/indexsuper.py: what is written, and `none` where a
-- text cannot be encoded. `format_string` gives back its argument, so the encoded texts are formatted as
-- bytes are.
pub mod Ascii
use aegir_sdr.Common.{
  ℕ, zero, suc, Bool, true, false, not, ◌&&◌, ◌||◌, Option, none, some, List, [], ◌∷◌, ◌++◌, Text,
  codes, ltb, leb, ◌==◌, all, if◌then◌else◌, ◌+◌, ◌-◌,
}
use aegir_sdr.Doxyxml.Quote.{quote_xml, quote_attrib, quote_python, has}
use aegir_sdr.Doxyxml.Index.{MemberType, CompoundType, DoxygenType}

-- `showIndent`
abbrev pub show_indent : ℕ → Text
show_indent zero = []
show_indent (suc n) = codes "    " ++ show_indent n

abbrev pub is_ascii : Text → Bool
is_ascii s = all (λ c. ltb c 128) s

-- `.encode(ExternalEncoding)`; `none` is the `UnicodeEncodeError`.
unfoldable pub encode : Text → Option Text
encode s = elim (is_ascii s) [ true ↦ some s | false ↦ none ]

hex_digit : ℕ → ℕ
hex_digit n = if ltb n 10 then b'0' + n else 87 + n

-- A byte below 128 in the `repr` of bytes between quotes `q`
unfoldable pub repr_byte : ℕ → ℕ → Text
unfolding hex_digit
repr_byte q c =
    if c == q || c == b'\\'
    then b'\\' ∷ c ∷ []
    else if c == 9
    then codes "\\t"
    else if c == 10
    then codes "\\n"
    else if c == 13
    then codes "\\r"
    else if c == 127
    then codes "\\x7f"
    else if ltb c 16
    then codes "\\x0" ++ hex_digit c ∷ []
    else if ltb c 32
    then codes "\\x1" ++ hex_digit (c - 16) ∷ []
    else c ∷ []

abbrev pub repr_bytes_body : ℕ → Text → Text
repr_bytes_body q [] = []
repr_bytes_body q (c ∷ s) = repr_byte q c ++ repr_bytes_body q s

abbrev pub repr_quote : Text → ℕ
repr_quote s = if has b'\'' s && not (has b'"' s) then b'"' else b'\''

-- `'%s'` of bytes, which is their `repr`
unfoldable pub format_bytes : Text → Text
format_bytes s = b'b' ∷ repr_quote s ∷ (repr_bytes_body (repr_quote s) s ++ repr_quote s ∷ [])

unfoldable pub and_then : Option Text → Option Text → Option Text
and_then a b = elim a [ none ↦ none | some s ↦ elim b [ none ↦ none | some t ↦ some (s ++ t) ] ]

-- A text between two others, encoded.
unfoldable pub encoded : Text → Text → Text → Option Text
encoded before s after = elim (encode s) [
  | none ↦ none
  | some t ↦ some (before ++ (format_bytes t ++ after))
]

abbrev pub has_value {ℓ} : {A : Type ℓ} → Option A → Bool
has_value none = false
has_value (some a) = true

-- The lines that the three methods `export` share: the start tag, the children, the end tag.
unfoldable pub tagged : ℕ → Text → Text → Text → Option Text → Bool → Option Text → Option Text
tagged level namespace name namespacedef attributes content children =
    and_then
      (some
        (show_indent level ++ (codes "<" ++ (namespace ++ (name ++ (codes " " ++ namespacedef))))))
      (and_then attributes (
        if content
        then and_then (some (codes ">\n")) (
            and_then children
              (some (show_indent level ++ (codes "</" ++ (namespace ++ (name ++ codes ">\n"))))))
        else some (codes " />\n")))

-- `exportChildren`, the name
unfoldable pub export_name : ℕ → Text → Option Text → Option Text
export_name level namespace none = some []
export_name level namespace (some n) =
    encoded (show_indent level ++ (codes "<" ++ (namespace ++ codes "name>"))) (quote_xml (some n))
      (codes "</" ++ (namespace ++ codes "name>\n"))

unfoldable pub export_kind : Option Text → Text
export_kind kind = codes " kind=" ++ quote_attrib kind

-- `MemberType.exportAttributes`
unfoldable pub export_member_attributes : MemberType → Option Text
export_member_attributes m =
    and_then (some (export_kind m.kind)) (encoded (codes " refid=") (quote_attrib m.refid) [])

unfoldable pub export_member : ℕ → Text → Text → Text → MemberType → Option Text
export_member level namespace name namespacedef m =
    tagged level namespace name namespacedef (export_member_attributes m) (has_value m.name)
      (export_name (suc level) namespace m.name)

unfoldable pub export_compound_attributes : CompoundType → Option Text
export_compound_attributes c =
    and_then (some (export_kind c.kind)) (encoded (codes " refid=") (quote_attrib c.refid) [])

unfoldable pub export_members : ℕ → Text → List MemberType → Option Text
export_members level namespace [] = some []
export_members level namespace (m ∷ ms) =
    and_then (export_member level namespace (codes "member") [] m)
      (export_members level namespace ms)

-- `CompoundType.export`; its list of members is never `None`, so it always has content.
unfoldable pub export_compound : ℕ → Text → Text → Text → CompoundType → Option Text
export_compound level namespace name namespacedef c =
    tagged level namespace name namespacedef (export_compound_attributes c) true (
      and_then (export_name (suc level) namespace c.name)
        (export_members (suc level) namespace c.member))

unfoldable pub export_doxygen_attributes : DoxygenType → Option Text
export_doxygen_attributes d = encoded (codes " version=") (quote_attrib d.version) []

unfoldable pub export_compounds : ℕ → Text → List CompoundType → Option Text
export_compounds level namespace [] = some []
export_compounds level namespace (c ∷ cs) =
    and_then (export_compound level namespace (codes "compound") [] c)
      (export_compounds level namespace cs)

unfoldable pub export_doxygen : ℕ → Text → Text → Text → DoxygenType → Option Text
export_doxygen level namespace name namespacedef d =
    tagged level namespace name namespacedef (export_doxygen_attributes d) true
      (export_compounds (suc level) namespace d.compound)
