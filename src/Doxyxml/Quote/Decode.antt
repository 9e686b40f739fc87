-- ===== src/Doxyxml/Quote/Decode.antt =====
-- An XML reader gets back what was quoted.
pub mod Attribute
use aegir_sdr.Common.{
  ℕ, zero, suc, true, false, ◌||◌, Option, [], ◌∷◌, ◌++◌, ◌≡◌, refl, ap, ◌∙◌, Text, codes, ◌==◌,
  replace, starts_with, if◌then◌else◌, arith, append_assoc, Bool-cases, inl, inr, ==_iff,
}
use aegir_sdr.Doxyxml.Quote.{str_of, escape, has, quote_xml}

-- The text that a reader of XML takes for some characters, with the predefined entities; the
-- number counts the characters of an entity that are still to be passed over.
unfoldable pub decode : ℕ → Text → Text
decode n [] = []
decode (suc n) (c ∷ s) = decode n s
decode zero (c ∷ s) = elim (c == b'&') [
  | false ↦ c ∷ decode 0 s
  | true ↦ elim (starts_with s (codes "amp;")) [
    | true ↦ b'&' ∷ decode 4 s
    | false ↦ elim (starts_with s (codes "lt;")) [
      | true ↦ b'<' ∷ decode 3 s
      | false ↦ elim (starts_with s (codes "gt;")) [
        | true ↦ b'>' ∷ decode 3 s
        | false ↦ elim (starts_with s (codes "quot;")) [
          | true ↦ b'"' ∷ decode 5 s
          | false ↦ c ∷ decode 0 s
        ]
      ]
    ]
  ]
]

-- `escape` as one pass over the text
abbrev escaped : ℕ → Text
escaped c =
    if c == b'&'
    then codes "&amp;"
    else if c == b'<'
    then codes "&lt;"
    else if c == b'>'
    then codes "&gt;"
    else c ∷ []

abbrev each : (ℕ → Text) → Text → Text
each f [] = []
each f (c ∷ s) = f c ++ each f s

replace-append :
    (s t : Text) (c : ℕ) (r : Text) → replace (s ++ t) c r ≡ replace s c r ++ replace t c r
unfolding replace
replace-append [] t c r = refl
replace-append (x ∷ s) t c r = rw (replace-append s t c r, append_assoc)

abbrev split : Text → Text
split s = replace (replace (replace s b'&' (codes "&amp;")) b'<' (codes "&lt;")) b'>' (codes "&gt;")

split-one : (c : ℕ) → split (c ∷ []) ≡ escaped c
unfolding replace
split-one c = ground arith

escape-each : (s : Text) → escape s ≡ each escaped s
unfolding escape
escape-each [] = unfold replace in refl
escape-each (c ∷ s) =
    ap (λ x. replace (replace x b'<' (codes "&lt;")) b'>' (codes "&gt;"))
      (replace-append (c ∷ []) s _ _)
    ∙ ap (λ x. replace x b'>' (codes "&gt;"))
        (replace-append (replace (c ∷ []) b'&' (codes "&amp;")) _ _ _)
    ∙ replace-append (replace (replace (c ∷ []) b'&' (codes "&amp;")) b'<' (codes "&lt;"))
        (replace (replace s b'&' (codes "&amp;")) b'<' (codes "&lt;")) b'>' (codes "&gt;")
    ∙ rw (split-one c) (ap (λ x. escaped c ++ x) (escape-each s))

decode_plain : (c : ℕ) (rest : Text) → (c == b'&') ≡ false → decode 0 (c ∷ rest) ≡ c ∷ decode 0 rest
unfolding decode
decode_plain c rest h = rw (h, decode) refl

decode-escaped : (c : ℕ) (rest : Text) → decode 0 (escaped c ++ rest) ≡ c ∷ decode 0 rest
unfolding decode starts_with
decode-escaped c rest = elim (Bool-cases (c == b'&')) [
  | inl amp ↦ rw ((==_iff c b'&').0 amp) refl
  | inr n ↦ elim (Bool-cases (c == b'<')) [
    | inl lt ↦ rw ((==_iff c b'<').0 lt) refl
    | inr m ↦ elim (Bool-cases (c == b'>')) [
      | inl gt ↦ rw ((==_iff c b'>').0 gt) refl
      | inr o ↦ rw (n, m, o) (decode_plain c rest n)
    ]
  ]
]

-- `escape`, and the double quote
abbrev escaped_quot : ℕ → Text
escaped_quot c = if c == b'"' then codes "&quot;" else escaped c

decode-escaped_quot : (c : ℕ) (rest : Text) → decode 0 (escaped_quot c ++ rest) ≡ c ∷ decode 0 rest
unfolding decode starts_with
decode-escaped_quot c rest = elim (Bool-cases (c == b'"')) [
  | inl quot ↦ rw ((==_iff c b'"').0 quot) refl
  | inr n ↦ rw n (decode-escaped c rest)
]

decode-each :
    (f : ℕ → Text)
    → ((c : ℕ) (rest : Text) → decode 0 (f c ++ rest) ≡ c ∷ decode 0 rest)
    → (s : Text) → decode 0 (each f s) ≡ s
decode-each f h [] = unfold decode in refl
decode-each f h (c ∷ s) = h c (each f s) ∙ ap (◌∷◌ c) (decode-each f h s)

replace-each : (s : Text) → replace (each escaped s) b'"' (codes "&quot;") ≡ each escaped_quot s
replace-each [] = unfold replace in refl
replace-each (c ∷ s) =
    replace-append (escaped c) (each escaped s) b'"' (codes "&quot;")
    ∙ ap (λ x. x ++ replace (each escaped s) b'"' (codes "&quot;")) (one c)
    ∙ ap (λ x. escaped_quot c ++ x) (replace-each s)
  where
    one : (c : ℕ) → replace (escaped c) b'"' (codes "&quot;") ≡ escaped_quot c
    one c = unfold replace in ground arith

has-append : (q : ℕ) (s t : Text) → has q (s ++ t) ≡ (has q s || has q t)
has-append q [] t = refl
has-append q (c ∷ s) t = ground (arith, has-append q s t)

has-each :
    (f : ℕ → Text) (q : ℕ) → ((c : ℕ) → has q (f c) ≡ false) → (s : Text) → has q (each f s) ≡ false
has-each f q h [] = refl
has-each f q h (c ∷ s) = rw (has-append, h c) (has-each f q h s)

decode-escape : (s : Text) → decode 0 (escape s) ≡ s
decode-escape s = rw escape-each (decode-each escaped decode-escaped s)

escape-no_lt : (s : Text) → has b'<' (escape s) ≡ false
escape-no_lt s = rw escape-each (has-each escaped b'<' (λ c. ground arith) s)

-- An XML reader that decodes the predefined entities gets back the text that `quote_xml` was given.
pub decode-quote_xml : (s : Option Text) → decode 0 (quote_xml s) ≡ str_of s
unfolding quote_xml
decode-quote_xml s = decode-escape (str_of s)
