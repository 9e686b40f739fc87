-- ===== src/Doxyxml/Quote.antt =====
-- `quote_xml`, `quote_attrib` and `quote_python` of generated/indexsuper.py, and of
-- generated/compoundsuper.py, which has the same text.
pub mod Decode
use aegir_sdr.Common.{
  ℕ, Bool, true, false, not, ◌&&◌, Option, none, some, List, [], ◌∷◌, ◌++◌, any, Text, codes, ◌==◌,
  replace, if◌then◌else◌,
}

-- `isinstance(inStr, str) and inStr or '%s' % inStr`, where the argument is a text or `None`
abbrev pub str_of : Option Text → Text
str_of none = codes "None"
str_of (some t) = t

-- The three replacements, of `&`, `<` and `>`
unfoldable pub escape : Text → Text
escape s =
    replace (replace (replace s b'&' (codes "&amp;")) b'<' (codes "&lt;")) b'>' (codes "&gt;")

-- `c in s` for one character
abbrev pub has : ℕ → Text → Bool
has c s = any (λ x. x == c) s

unfoldable pub quote_xml : Option Text → Text
unfolding escape
quote_xml in_str = escape (str_of in_str)

abbrev pub enclosed : Text → Text → Text
enclosed q s = q ++ (s ++ q)

unfoldable pub quote_attrib : Option Text → Text
quote_attrib in_str =
    let s = escape (str_of in_str) in
    if has b'"' s
    then (if has b'\'' s
        then enclosed (codes "\"") (replace s b'"' (codes "&quot;"))
        else enclosed (codes "'") s)
    else enclosed (codes "\"") s

unfoldable pub quote_python : Text → Text
quote_python s =
    let t = replace s b'"' (codes "\\\"") in
    if has b'\'' s
    then (if has 10 s then enclosed (codes "\"\"\"") t else enclosed (codes "\"") t)
    else (if has 10 s then enclosed (codes "'''") s else enclosed (codes "'") s)
