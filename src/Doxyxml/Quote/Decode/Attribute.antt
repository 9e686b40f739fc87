-- ===== src/Doxyxml/Quote/Decode/Attribute.antt =====
-- An XML reader gets back what was quoted as the value of an attribute, but for its white space.
use aegir_sdr.Common.{
  ℕ, Bool, true, false, ◌&&◌, ◌||◌, Option, [], ◌∷◌, ◌++◌, ◌≡◌, refl, sym, ap, ◌∙◌, Text, codes,
  ◌==◌, starts_with, if◌then◌else◌, arith, Bool-cases, inl, inr, ==_iff, ◌⊎◌,
}
use aegir_sdr.Doxyxml.Quote.{str_of, escape, has, quote_attrib}
use aegir_sdr.Doxyxml.Quote.Decode.{
  decode, each, escaped, escaped_quot, escape-each, escape-no_lt, has-each, decode-each,
  decode-escaped, decode-escaped_quot, replace-each,
}

-- What a reader of XML makes of the white space of an attribute's value before it decodes entities: a line end of
-- one or two characters, and a tab, are a space.
abbrev at_newline : Text → Bool
at_newline [] = false
at_newline (c ∷ s) = c == 10

abbrev spaced : ℕ → ℕ
spaced c = if c == 9 || c == 10 || c == 13 then b' ' else c

unfoldable pub normal : Text → Text
normal [] = []
normal (c ∷ s) = let rest = normal s in if c == 13 && at_newline s then rest else spaced c ∷ rest

-- Every ampersand begins an entity that `decode` knows.
abbrev is_entity : Text → Bool
is_entity s =
    starts_with s (codes "amp;")
    || starts_with s (codes "lt;")
    || starts_with s (codes "gt;")
    || starts_with s (codes "quot;")

unfoldable pub has_no_bare : Text → Bool
has_no_bare [] = true
has_no_bare (c ∷ s) = let rest = has_no_bare s in if c == b'&' then is_entity s && rest else rest

-- The value of an attribute: its quote on both sides, and in between neither that quote nor `<`, and
-- no ampersand but at the beginning of an entity.
pub record IsAttribute (value body : Text) (q : ℕ) : Type 0 where
  pub is_quote : (q ≡ b'"') ⊎ (q ≡ b'\'')
  pub form : value ≡ q ∷ (body ++ q ∷ [])
  pub no_quote : has q body ≡ false
  pub no_lt : has b'<' body ≡ false
  pub no_bare : has_no_bare body ≡ true

no_bare_plain : (c : ℕ) (s : Text) → (c == b'&') ≡ false → has_no_bare (c ∷ s) ≡ has_no_bare s
unfolding has_no_bare
no_bare_plain c s h = rw (h, has_no_bare) refl

escaped_plain :
    (c : ℕ) → (c == b'&') ≡ false → (c == b'<') ≡ false → (c == b'>') ≡ false → escaped c ≡ c ∷ []
escaped_plain c n m o = rw (n, m, o) refl

escaped-spaced :
    (c : ℕ)
    → (c == b'&') ≡ false
    → (c == b'<') ≡ false
    → (c == b'>') ≡ false
    → escaped (spaced c) ≡ spaced c ∷ []
escaped-spaced c n m o = elim (Bool-cases (c == 9 || c == 10 || c == 13)) [
  | inl white ↦ rw white refl
  | inr off ↦ rw off (escaped_plain c n m o)
]

no_bare-escaped : (c : ℕ) (s : Text) → has_no_bare (escaped c ++ s) ≡ has_no_bare s
unfolding has_no_bare starts_with
no_bare-escaped c s = elim (Bool-cases (c == b'&')) [
  | inl amp ↦ rw ((==_iff c b'&').0 amp) refl
  | inr n ↦ elim (Bool-cases (c == b'<')) [
    | inl lt ↦ rw ((==_iff c b'<').0 lt) refl
    | inr m ↦ elim (Bool-cases (c == b'>')) [
      | inl gt ↦ rw ((==_iff c b'>').0 gt) refl
      | inr o ↦ ap (λ x. has_no_bare (x ++ s)) (escaped_plain c n m o) ∙ no_bare_plain c s n
    ]
  ]
]

no_bare-escaped_quot : (c : ℕ) (s : Text) → has_no_bare (escaped_quot c ++ s) ≡ has_no_bare s
unfolding has_no_bare starts_with
no_bare-escaped_quot c s = elim (Bool-cases (c == b'"')) [
  | inl quot ↦ rw ((==_iff c b'"').0 quot) refl
  | inr n ↦ rw n (no_bare-escaped c s)
]

no_bare-each :
    (f : ℕ → Text)
    → ((c : ℕ) (s : Text) → has_no_bare (f c ++ s) ≡ has_no_bare s)
    → (s : Text) → has_no_bare (each f s) ≡ true
unfolding has_no_bare
no_bare-each f h [] = refl
no_bare-each f h (c ∷ s) = h c (each f s) ∙ no_bare-each f h s

escape-no_bare : (s : Text) → has_no_bare (escape s) ≡ true
escape-no_bare s = rw escape-each (no_bare-each escaped no_bare-escaped s)

-- What a quoting does to one character, in front of others, with the white space made normal
abbrev Spaces : (ℕ → Text) → Type 0
Spaces f =
    (c : ℕ) (s : Text)
    → (normal (f c ++ s) ≡ (if c == 13 && at_newline s then normal s else f (spaced c) ++ normal s))
      × (at_newline (f c ++ s) ≡ (c == 10))

normal-escaped : Spaces escaped
unfolding normal
normal-escaped c s = elim (Bool-cases (c == b'&')) [
  | inl amp ↦ rw ((==_iff c b'&').0 amp) (refl, refl)
  | inr n ↦ elim (Bool-cases (c == b'<')) [
    | inl lt ↦ rw ((==_iff c b'<').0 lt) (refl, refl)
    | inr m ↦ elim (Bool-cases (c == b'>')) [
      | inl gt ↦ rw ((==_iff c b'>').0 gt) (refl, refl)
      | inr o ↦ (
        ap (λ x. normal (x ++ s)) (escaped_plain c n m o)
            ∙ ap (λ x. if c == 13 && at_newline s then normal s else x ++ normal s)
                (sym (escaped-spaced c n m o)),
        ap (λ x. at_newline (x ++ s)) (escaped_plain c n m o),
      )
    ]
  ]
]

quoted_plain : (c : ℕ) → (c == b'"') ≡ false → escaped_quot c ≡ escaped c
quoted_plain c n = rw n refl

spaced_quot : (c : ℕ) → (c == b'"') ≡ false → (spaced c == b'"') ≡ false
spaced_quot c n = elim (Bool-cases (c == 9 || c == 10 || c == 13)) [
  | inl white ↦ rw white refl
  | inr off ↦ rw off n
]

normal-escaped_quot : Spaces escaped_quot
unfolding normal
normal-escaped_quot c s = elim (Bool-cases (c == b'"')) [
  | inl quot ↦ rw ((==_iff c b'"').0 quot) (refl, refl)
  | inr n ↦
      let (p, q) = normal-escaped c s in
      (
        ap (λ x. normal (x ++ s)) (quoted_plain c n)
            ∙ p
            ∙ ap (λ x. if c == 13 && at_newline s then normal s else x ++ normal s)
                (sym (quoted_plain (spaced c) (spaced_quot c n))),
        ap (λ x. at_newline (x ++ s)) (quoted_plain c n) ∙ q,
      )
]

at_newline-each : (f : ℕ → Text) → Spaces f → (s : Text) → at_newline (each f s) ≡ at_newline s
at_newline-each f h [] = refl
at_newline-each f h (c ∷ s) = (h c (each f s)).1

each_if :
    (f : ℕ → Text) (b : Bool) (s : Text) (c : ℕ)
    → (if b then each f s else f c ++ each f s) ≡ each f (if b then s else c ∷ s)
each_if f true s c = refl
each_if f false s c = refl

normal_of-each : (f : ℕ → Text) → Spaces f → (s : Text) → normal (each f s) ≡ each f (normal s)
unfolding normal
normal_of-each f h [] = refl
normal_of-each f h (c ∷ s) =
    (h c (each f s)).0
    ∙ ap (λ b. if c == 13 && b then normal (each f s) else f (spaced c) ++ normal (each f s))
        (at_newline-each f h s)
    ∙ ap (λ t. if c == 13 && at_newline s then t else f (spaced c) ++ t) (normal_of-each f h s)
    ∙ each_if f (c == 13 && at_newline s) (normal s) (spaced c)

normal-each :
    (f : ℕ → Text)
    → Spaces f
    → ((c : ℕ) (rest : Text) → decode 0 (f c ++ rest) ≡ c ∷ decode 0 rest)
    → (s : Text) → decode 0 (normal (each f s)) ≡ normal s
normal-each f h k s = ap (decode 0) (normal_of-each f h s) ∙ decode-each f k (normal s)

normal-escape : (s : Text) → decode 0 (normal (escape s)) ≡ normal s
normal-escape s = rw escape-each (normal-each escaped normal-escaped decode-escaped s)

-- What `quote_attrib` returns is a value of an attribute, by whichever quote, without that quote, `<` or a bare
-- ampersand inside, and an XML reader, which makes the white space normal and decodes the entities, gets the text that
-- was given, with its white space made normal.
pub quote_attrib-IsAttribute :
    (s : Option Text)
    → (body : Text) × (q : ℕ) × IsAttribute (quote_attrib s) body q
      × (decode 0 (normal body) ≡ normal (str_of s))
unfolding quote_attrib
quote_attrib-IsAttribute s = elim (Bool-cases (has b'"' (escape (str_of s)))) [
  | inr plain ↦ (
    escape (str_of s),
    b'"',
    record {
      is_quote = inl refl;
      form = rw plain;
      no_quote = plain;
      no_lt = escape-no_lt (str_of s);
      no_bare = escape-no_bare (str_of s);
    },
    normal-escape (str_of s),
  )
  | inl double ↦ elim (Bool-cases (has b'\'' (escape (str_of s)))) [
    | inr single ↦ (
      escape (str_of s),
      b'\'',
      record {
        is_quote = inr refl;
        form = rw (double, single);
        no_quote = single;
        no_lt = escape-no_lt (str_of s);
        no_bare = escape-no_bare (str_of s);
      },
      normal-escape (str_of s),
    )
    | inl both ↦ (
      each escaped_quot (str_of s),
      b'"',
      record {
        is_quote = inl refl;
        form = rw (double, both, escape-each (str_of s), replace-each (str_of s));
        no_quote = has-each escaped_quot b'"' (λ c. ground arith) (str_of s);
        no_lt = has-each escaped_quot b'<' (λ c. ground arith) (str_of s);
        no_bare = no_bare-each escaped_quot no_bare-escaped_quot (str_of s);
      },
      normal-each escaped_quot normal-escaped_quot decode-escaped_quot (str_of s),
    )
  ]
]
