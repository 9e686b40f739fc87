-- ===== src/Doxyxml/Index/Export/Ascii.antt =====
-- When the export of an index comes to its end.
use aegir_sdr.Common.{
  ℕ, suc, Bool, true, false, ◌&&◌, Bool-cases, inl, inr, Option, Option-cases, none, some, List, [],
  ◌∷◌, ◌++◌, ◌≡◌, refl, sym, ap, ◌∙◌, Text, codes, ltb, ◌==◌, ==_iff, all, replace,
}
use aegir_sdr.Doxyxml.Quote.{quote_xml, quote_attrib, escape, str_of, has, enclosed}
use aegir_sdr.Doxyxml.Index.{MemberType, CompoundType, DoxygenType}
use aegir_sdr.Doxyxml.Index.Export.{
  is_ascii, encode, and_then, encoded, has_value, tagged, export_name, export_kind,
  export_member_attributes, export_member, export_compound_attributes, export_members,
  export_compound, export_doxygen_attributes, export_compounds, export_doxygen, show_indent,
}

&&-assoc : (a b c : Bool) → (a && b) && c ≡ a && (b && c)
&&-assoc true b c = refl
&&-assoc false b c = refl

is_ascii-append : (s t : Text) → is_ascii (s ++ t) ≡ is_ascii s && is_ascii t
is_ascii-append [] t = refl
is_ascii-append (x ∷ s) t =
    ap (◌&&◌ (ltb x 128)) (is_ascii-append s t)
    ∙ sym (&&-assoc (ltb x 128) (is_ascii s) (is_ascii t))

pub is_ascii-replace :
    (s : Text) (c : ℕ) (r : Text)
    → ltb c 128 ≡ true
    → is_ascii r ≡ true
    → is_ascii (replace s c r) ≡ is_ascii s
unfolding replace
is_ascii-replace [] c r low plain = refl
is_ascii-replace (x ∷ s) c r low plain = elim (Bool-cases (x == c)) [
  | inl same ↦ rw same (
      is_ascii-append r (replace s c r)
      ∙ rw (plain, (==_iff x c).0 same, low) (is_ascii-replace s c r low plain))
  | inr off ↦ rw off (ap (◌&&◌ (ltb x 128)) (is_ascii-replace s c r low plain))
]

is_ascii-escape : (s : Text) → is_ascii (escape s) ≡ is_ascii s
unfolding escape
is_ascii-escape s =
    is_ascii-replace (replace (replace s b'&' (codes "&amp;")) b'<' (codes "&lt;")) b'>'
      (codes "&gt;") refl refl
    ∙ is_ascii-replace (replace s b'&' (codes "&amp;")) b'<' (codes "&lt;") refl refl
    ∙ is_ascii-replace s b'&' (codes "&amp;") refl refl

pub &&-true : (a : Bool) → a && true ≡ a
&&-true true = refl
&&-true false = refl

pub is_ascii-enclosed : (q s : Text) → is_ascii q ≡ true → is_ascii (enclosed q s) ≡ is_ascii s
is_ascii-enclosed q s plain =
    is_ascii-append q (s ++ q) ∙ rw plain (is_ascii-append s q ∙ rw plain (&&-true (is_ascii s)))

is_ascii-quote_attrib : (s : Option Text) → is_ascii (quote_attrib s) ≡ is_ascii (str_of s)
unfolding quote_attrib
is_ascii-quote_attrib s = elim (Bool-cases (has b'"' (escape (str_of s)))) [
  | inr plain ↦
      rw plain
        (is_ascii-enclosed (codes "\"") (escape (str_of s)) refl ∙ is_ascii-escape (str_of s))
  | inl double ↦ elim (Bool-cases (has b'\'' (escape (str_of s)))) [
    | inr plain ↦
        rw (double, plain)
          (is_ascii-enclosed (codes "'") (escape (str_of s)) refl ∙ is_ascii-escape (str_of s))
    | inl single ↦
        rw (double, single)
          (is_ascii-enclosed (codes "\"") (replace (escape (str_of s)) b'"' (codes "&quot;")) refl
            ∙ is_ascii-replace (escape (str_of s)) b'"' (codes "&quot;") refl refl
            ∙ is_ascii-escape (str_of s))
  ]
]

is_ascii-quote_xml : (s : Option Text) → is_ascii (quote_xml s) ≡ is_ascii (str_of s)
unfolding quote_xml
is_ascii-quote_xml s = is_ascii-escape (str_of s)

-- Whether there is a text.
pub has_value-and_then : (a b : Option Text) → has_value (and_then a b) ≡ has_value a && has_value b
unfolding and_then
has_value-and_then none b = refl
has_value-and_then (some s) none = refl
has_value-and_then (some s) (some t) = refl

pub has_value-encoded : (before s after : Text) → has_value (encoded before s after) ≡ is_ascii s
unfolding encoded encode
has_value-encoded before s after = elim (Bool-cases (is_ascii s)) [
  | inl yes_ascii ↦ rw (yes_ascii, encoded, encode) refl
  | inr off ↦ rw (off, encoded, encode) refl
]

-- The texts that are encoded are ASCII; the kind of an object is not encoded.
abbrev pub name_ascii : Option Text → Bool
name_ascii none = true
name_ascii (some n) = is_ascii n

abbrev pub member_ascii : MemberType → Bool
member_ascii m = is_ascii (str_of m.refid) && name_ascii m.name

abbrev pub compound_ascii : CompoundType → Bool
compound_ascii c = is_ascii (str_of c.refid) && (name_ascii c.name && all member_ascii c.member)

abbrev pub doxygen_ascii : DoxygenType → Bool
doxygen_ascii d = is_ascii (str_of d.version) && all compound_ascii d.compound

has_value-name :
    (level : ℕ) (ns : Text) (n : Option Text) → has_value (export_name level ns n) ≡ name_ascii n
unfolding export_name
has_value-name level ns none = refl
has_value-name level ns (some n) =
    has_value-encoded (show_indent level ++ (codes "<" ++ (ns ++ codes "name>")))
      (quote_xml (some n)) _
    ∙ is_ascii-quote_xml (some n)

has_value-tagged :
    (level : ℕ) (ns name def : Text) (attributes children : Option Text)
    → has_value (tagged level ns name def attributes true children)
      ≡ has_value attributes && has_value children
unfolding tagged and_then
has_value-tagged level ns name def none children = refl
has_value-tagged level ns name def (some a) none = refl
has_value-tagged level ns name def (some a) (some c) = refl

has_value-empty :
    (level : ℕ) (ns name def : Text) (attributes children : Option Text)
    → has_value (tagged level ns name def attributes false children) ≡ has_value attributes
unfolding tagged and_then
has_value-empty level ns name def none children = refl
has_value-empty level ns name def (some a) children = refl

has_value-refid :
    (kind refid : Option Text)
    → has_value
        (and_then (some (export_kind kind)) (encoded (codes " refid=") (quote_attrib refid) []))
      ≡ is_ascii (str_of refid)
has_value-refid kind refid =
    has_value-and_then (some (export_kind kind)) _
    ∙ has_value-encoded (codes " refid=") (quote_attrib refid) []
    ∙ is_ascii-quote_attrib refid

pub both : {a b c d : Bool} → a ≡ c → b ≡ d → a && b ≡ c && d
both p q = rw (p, q) refl

has_value-member :
    (level : ℕ) (ns name def : Text) (m : MemberType)
    → has_value (export_member level ns name def m) ≡ member_ascii m
unfolding export_member export_member_attributes
has_value-member level ns name def m = elim (Option-cases m.name) [
  | inl at ↦ rw at (
      has_value-empty level ns name def _ _
      ∙ has_value-refid m.kind m.refid
      ∙ sym (&&-true (is_ascii (str_of m.refid))))
  | inr (n, at) ↦ rw at (
      has_value-tagged level ns name def _ _
      ∙ both (has_value-refid m.kind m.refid) (has_value-name (suc level) ns (some n)))
]

has_value-members :
    (level : ℕ) (ns : Text) (ms : List MemberType)
    → has_value (export_members level ns ms) ≡ all member_ascii ms
unfolding export_members
has_value-members level ns [] = refl
has_value-members level ns (m ∷ ms) =
    has_value-and_then (export_member level ns (codes "member") [] m) (export_members level ns ms)
    ∙ both (has_value-member level ns (codes "member") [] m) (has_value-members level ns ms)

has_value-compound :
    (level : ℕ) (ns name def : Text) (c : CompoundType)
    → has_value (export_compound level ns name def c) ≡ compound_ascii c
unfolding export_compound export_compound_attributes
has_value-compound level ns name def c =
    has_value-tagged level ns name def _ _
    ∙ both (has_value-refid c.kind c.refid) (
        has_value-and_then (export_name (suc level) ns c.name)
          (export_members (suc level) ns c.member)
        ∙ both (has_value-name (suc level) ns c.name) (has_value-members (suc level) ns c.member))

has_value-compounds :
    (level : ℕ) (ns : Text) (cs : List CompoundType)
    → has_value (export_compounds level ns cs) ≡ all compound_ascii cs
unfolding export_compounds
has_value-compounds level ns [] = refl
has_value-compounds level ns (c ∷ cs) =
    has_value-and_then (export_compound level ns (codes "compound") [] c)
      (export_compounds level ns cs)
    ∙ both (has_value-compound level ns (codes "compound") [] c) (has_value-compounds level ns cs)

-- The export of an index comes to its end if and only if its version, and the refid and the name of each
-- compound and member, are ASCII; whatever its kinds and the markup characters in its texts are.
pub export_doxygen-ascii :
    (level : ℕ) (ns name def : Text) (d : DoxygenType)
    → has_value (export_doxygen level ns name def d) ≡ doxygen_ascii d
unfolding export_doxygen export_doxygen_attributes
export_doxygen-ascii level ns name def d =
    has_value-tagged level ns name def _ _
    ∙ both
        (has_value-encoded (codes " version=") (quote_attrib d.version) []
          ∙ is_ascii-quote_attrib d.version)
        (has_value-compounds (suc level) ns d.compound)
