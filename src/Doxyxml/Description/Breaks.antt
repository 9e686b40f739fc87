-- ===== src/Doxyxml/Description/Breaks.antt =====
-- A description has the strings of its tree, and line breaks.
use aegir_sdr.Common.{
  Bool, true, false, ◌&&◌, Bool-cases, inl, inr, Option, [], ◌∷◌, ◌++◌, ◌≡◌, refl, sym, ap, ◌∙◌,
  Text, codes, ◌==◌, if◌then◌else◌, append-nil,
}
use aegir_sdr.Doxyxml.Base.{Result, returns}
use aegir_sdr.Doxyxml.Base.Lookup.{clash}
use aegir_sdr.Doxyxml.Description.{
  Bit, content, value, string, unknown, Bits, nil, cons, is_para, add_breaks, add_text,
  description_bit, description_bits,
}

-- The strings of a tree in their order, and whether it has nothing else.
unfoldable mutual
  pub strings : Bit → Text
  strings (content name bits) = all_strings bits
  strings (value name bit) = strings bit
  strings (string s) = s
  strings unknown = []

  pub all_strings : Bits → Text
  all_strings nil = []
  all_strings (cons b bs) = strings b ++ all_strings bs

unfoldable mutual
  pub is_known : Bit → Bool
  is_known (content name bits) = all_known bits
  is_known (value name bit) = is_known bit
  is_known (string s) = true
  is_known unknown = false

  pub all_known : Bits → Bool
  all_known nil = true
  all_known (cons b bs) = is_known b && all_known bs

-- A text without its line breaks.
abbrev pub unbroken : Text → Text
unbroken [] = []
unbroken (c ∷ s) = if c == 10 then unbroken s else c ∷ unbroken s

unbroken-append : (s t : Text) → unbroken (s ++ t) ≡ unbroken s ++ unbroken t
unbroken-append [] t = refl
unbroken-append (c ∷ s) t = elim (Bool-cases (c == 10)) [
  | inl break ↦ rw break (unbroken-append s t)
  | inr off ↦ rw off (ap (◌∷◌ c) (unbroken-append s t))
]

-- A result that has the strings `s`, but for line breaks.
abbrev pub Keeps : Result Text → Text → Type 0
Keeps r s = (t : Text) × (r ≡ returns t) × (unbroken t ≡ unbroken s)

add_breaks-Keeps :
    (name : Option Text) (r : Result Text) (s : Text) → Keeps r s → Keeps (add_breaks name r) s
add_breaks-Keeps name r s (t, eq, same) = elim (Bool-cases (is_para name)) [
  | inl para ↦ (
    t ++ codes "\n\n",
    ap (add_breaks name) eq ∙ rw para refl,
    unbroken-append t (codes "\n\n") ∙ rw append-nil same,
  )
  | inr plain ↦ (t, ap (add_breaks name) eq ∙ rw plain refl, same)
]

add_text-Keeps :
    (r q : Result Text) (s u : Text) → Keeps r s → Keeps q u → Keeps (add_text r q) (s ++ u)
add_text-Keeps r q s u (t, eq, same) (v, at, alike) =
    (t ++ v, rw (eq, at) refl, unbroken-append t v ∙ rw (same, alike) (sym (unbroken-append s u)))

pub &&-left : (a b : Bool) → a && b ≡ true → a ≡ true
&&-left true b p = refl
&&-left false b p = clash p

pub &&-right : (a b : Bool) → a && b ≡ true → b ≡ true
&&-right true b p = p
&&-right false b p = clash p

mutual
  unfolding description_bit is_known strings

  strings-Keeps : (b : Bit) → is_known b ≡ true → Keeps (description_bit b) (strings b)
  strings-Keeps (content name bits) known =
      add_breaks-Keeps name (description_bits bits) (all_strings bits)
        (all_strings-Keeps bits known)
  strings-Keeps (value name bit) known =
      add_breaks-Keeps name (description_bit bit) (strings bit) (strings-Keeps bit known)
  strings-Keeps (string s) known = (s, refl, refl)
  strings-Keeps unknown known = clash known

  all_strings-Keeps :
      (bs : Bits) → all_known bs ≡ true → Keeps (description_bits bs) (all_strings bs)
  all_strings-Keeps nil known = ([], refl, refl)
  all_strings-Keeps (cons b bs) known =
      add_text-Keeps (description_bit b) (description_bits bs) (strings b) (all_strings bs)
        (strings-Keeps b (&&-left (is_known b) (all_known bs) known))
        (all_strings-Keeps bs (&&-right (is_known b) (all_known bs) known))

-- For a tree whose leaves are all strings, `description_bit` returns a text that has these strings in
-- their order, with nothing added or dropped but line breaks.
pub description_bit-Keeps : (b : Bit) → is_known b ≡ true → Keeps (description_bit b) (strings b)
description_bit-Keeps b known = strings-Keeps b known
