-- ===== src/Pydoc/Literal.antt =====
-- What `utoascii` returns can stand between double quotes.
use aegir_sdr.Common.{
  ℕ, Bool, true, false, not, ◌&&◌, Bool-cases, inl, inr, Option, none, some, [], ◌∷◌, ◌++◌, ◌≡◌,
  refl, ap, ◌∙◌, append_assoc, Text, codes, ltb, ◌==◌, replace, if◌then◌else◌,
}
use aegir_sdr.Pydoc.{encode_replace, utoascii}

-- A text of ASCII characters in which a backslash comes with the character behind it, and no other double
-- quote stands; `pending` says that the character in front is such a backslash.
abbrev pub is_literal : Bool → Text → Bool
is_literal pending [] = not pending
is_literal true (c ∷ s) = ltb c 128 && is_literal false s
is_literal false (c ∷ s) = ltb c 128 && (not (c == b'"') && is_literal (c == b'\\') s)

-- One character, replaced twice.
abbrev pub escaped : ℕ → Text
escaped c = replace (if c == b'\\' then codes "\\\\\\\\" else c ∷ []) b'"' (codes "\\\"")

replace-append :
    (s t : Text) (c : ℕ) (r : Text) → replace (s ++ t) c r ≡ replace s c r ++ replace t c r
unfolding replace
replace-append [] t c r = refl
replace-append (x ∷ s) t c r = rw (replace-append s t c r, append_assoc)

is_literal-escaped :
    (c : ℕ) (rest : Text)
    → ltb c 128 ≡ true
    → is_literal false (escaped c ++ rest) ≡ is_literal false rest
unfolding replace
is_literal-escaped c rest low = elim (Bool-cases (c == b'\\')) [
  | inl back ↦ rw (back) refl
  | inr off ↦ elim (Bool-cases (c == b'"')) [
    | inl quote ↦ rw (off, quote) refl
    | inr plain ↦ rw (off, plain) (rw (low, plain, off) refl)
  ]
]

abbrev ascii_of : ℕ → ℕ
ascii_of c = if ltb c 128 then c else b'?'

ascii_of-low : (c : ℕ) → ltb (ascii_of c) 128 ≡ true
ascii_of-low c = elim (Bool-cases (ltb c 128)) [
  | inl low ↦ rw (low, low) refl
  | inr high ↦ rw high refl
]

pub replace-cons :
    (c : ℕ) (s : Text)
    → replace (replace (c ∷ s) b'\\' (codes "\\\\\\\\")) b'"' (codes "\\\"")
      ≡ escaped c ++ replace (replace s b'\\' (codes "\\\\\\\\")) b'"' (codes "\\\"")
unfolding replace
replace-cons c s =
    replace-append (if c == b'\\' then codes "\\\\\\\\" else c ∷ [])
      (replace s b'\\' (codes "\\\\\\\\")) b'"' (codes "\\\"")

is_literal-encode_replace :
    (s : Text)
    → is_literal false
        (replace (replace (encode_replace s) b'\\' (codes "\\\\\\\\")) b'"' (codes "\\\""))
      ≡ true
unfolding encode_replace
is_literal-encode_replace [] = unfold replace in refl
is_literal-encode_replace (c ∷ s) =
    ap (is_literal false) (replace-cons (ascii_of c) (encode_replace s))
    ∙ is_literal-escaped (ascii_of c) _ (ascii_of-low c)
    ∙ is_literal-encode_replace s

-- The text that `utoascii` returns is ASCII, and between double quotes it is one string literal: every double
-- quote in it stands behind a backslash of its own, and it does not end inside an escape.
pub utoascii-is_literal : (text : Option Text) → is_literal false (utoascii text) ≡ true
unfolding utoascii
utoascii-is_literal none = refl
utoascii-is_literal (some s) = is_literal-encode_replace s
