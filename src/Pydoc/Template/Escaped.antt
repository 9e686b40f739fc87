-- ===== src/Pydoc/Template/Escaped.antt =====
-- What `re` makes of a text of `utoascii` in a template.
use aegir_sdr.Common.{
  ℕ, Bool, true, false, Bool-cases, Option, none, some, inl, inr, List, [], ◌∷◌, ◌++◌, ◌≡◌, refl,
  sym, ap, ◌∙◌, subst, append_assoc, Text, codes, replace, ◌==◌, ==_iff, if◌then◌else◌,
}
use aegir_sdr.Pydoc.Literal.{escaped, replace-cons}
use aegir_sdr.Doxyxml.Base.Lookup.{clash}
use aegir_sdr.Pydoc.Template.{
  Piece, literal, group, is_digit, numbered, known_escape, escape, prepend, parse_template,
}

-- A backslash comes out twice, and a double quote with a backslash in front.
abbrev pub shown : Text → Text
shown [] = []
shown (c ∷ s) =
    (if c == b'\\' then codes "\\\\" else if c == b'"' then codes "\\\"" else c ∷ []) ++ shown s

abbrev pub literals : Text → List Piece
literals [] = []
literals (c ∷ s) = literal c ∷ literals s

-- `out` of `utoascii`
abbrev pub doubled : Text → Text
doubled e = replace (replace e b'\\' (codes "\\\\\\\\")) b'"' (codes "\\\"")

abbrev shown_char : ℕ → Text
shown_char c = if c == b'\\' then codes "\\\\" else if c == b'"' then codes "\\\"" else c ∷ []

prepend-append :
    (s t : Text) (o : Option (List Piece))
    → prepend (literals s) (prepend (literals t) o) ≡ prepend (literals (s ++ t)) o
prepend-append [] t none = refl
prepend-append [] t (some ps) = refl
prepend-append (c ∷ s) t none = refl
prepend-append (c ∷ s) t (some ps) = ap (prepend (literal c ∷ [])) (prepend-append s t (some ps))

parse_template-escaped :
    (c : ℕ) (rest : Text)
    → parse_template 0 (escaped c ++ rest)
      ≡ prepend (literals (shown_char c)) (parse_template 0 rest)
unfolding parse_template escape known_escape replace
parse_template-escaped c rest = elim (Bool-cases (c == b'\\')) [
  | inl back ↦ rw back (prepend-append (b'\\' ∷ []) (b'\\' ∷ []) (parse_template 0 rest))
  | inr off ↦ elim (Bool-cases (c == b'"')) [
    | inl quote ↦ rw (off, quote) refl
    | inr plain ↦ rw (off, plain) (rw (parse_template, off) refl)
  ]
]

abbrev pub ending : Text
ending = codes "\\2"

abbrev pub last_piece : Option (List Piece)
last_piece = some (group 2 ∷ [])

-- A text of `utoascii` in a template stands for what is shown of it.
pub parse_template-doubled :
    (e : Text) → parse_template 0 (doubled e ++ ending) ≡ prepend (literals (shown e)) last_piece
unfolding parse_template escape numbered replace
parse_template-doubled [] = refl
parse_template-doubled (c ∷ e) =
    ap (λ t. parse_template 0 (t ++ ending)) (replace-cons c e)
    ∙ ap (parse_template 0) (append_assoc (escaped c) (doubled e) ending)
    ∙ parse_template-escaped c (doubled e ++ ending)
    ∙ ap (prepend (literals (shown_char c))) (parse_template-doubled e)
    ∙ prepend-append (shown_char c) (shown e) last_piece

pub escaped-digit : (c : ℕ) → is_digit c ≡ true → escaped c ≡ c ∷ []
unfolding replace
escaped-digit c digit = elim (Bool-cases (c == b'\\')) [
  | inl back ↦ clash (subst (λ n. is_digit n ≡ true) ((==_iff c b'\\').0 back) digit)
  | inr off ↦ elim (Bool-cases (c == b'"')) [
    | inl quote ↦ clash (subst (λ n. is_digit n ≡ true) ((==_iff c b'"').0 quote) digit)
    | inr plain ↦ rw (off, plain) refl
  ]
]

-- A class of characters without the backslash and the quote keeps the first character.
pub first_escaped :
    (is : ℕ → Bool)
    → is b'\\' ≡ false
    → is b'"' ≡ false
    → (c : ℕ) (rest : Text) → (x : ℕ) × (y : Text) × (escaped c ++ rest ≡ x ∷ y) × (is x ≡ is c)
unfolding replace
first_escaped is no_back no_quote c rest = elim (Bool-cases (c == b'\\')) [
  | inl back ↦ (
    b'\\',
    codes "\\\\\\" ++ rest,
    rw back refl,
    no_back ∙ sym (ap is ((==_iff c b'\\').0 back) ∙ no_back),
  )
  | inr off ↦ elim (Bool-cases (c == b'"')) [
    | inl quote ↦ (
      b'\\',
      b'"' ∷ rest,
      rw (off, quote) refl,
      no_back ∙ sym (ap is ((==_iff c b'"').0 quote) ∙ no_quote),
    )
    | inr plain ↦ (c, rest, rw (off, plain) refl, refl)
  ]
]
