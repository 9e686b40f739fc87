-- ===== src/Pydoc/Template/Docstring.antt =====
-- What `re` makes of the template of a docstring.
use aegir_sdr.Common.{
  ℕ, ◌+◌, ◌-◌, ◌*◌, Bool, true, false, ◌&&◌, Bool-cases, Option, none, some, inl, inr, List, [],
  ◌∷◌, ◌++◌, ◌≡◌, refl, sym, ap, ◌∙◌, append_assoc, Text, codes, replace, leb, ltb, ◌≤◌,
  if◌then◌else◌, arith,
}
use aegir_sdr.Pydoc.Literal.{escaped, replace-cons}
use aegir_sdr.Doxyxml.Description.Breaks.{&&-left, &&-right}
use aegir_sdr.Pydoc.Template.{
  Piece, literal, group, is_digit, is_octal, numbered, two_digits, octal_or, octal_of, group_of,
  add_escape, escape, prepend, parse_template,
}
use aegir_sdr.Pydoc.Template.Escaped.{
  shown, literals, doubled, ending, last_piece, parse_template-doubled, escaped-digit,
  first_escaped,
}

parse_template-escape :
    (s : Text) (e : Option (List Piece × ℕ))
    → escape s ≡ e
    → parse_template 0 (b'\\' ∷ s) ≡ add_escape e (λ n. parse_template n s)
unfolding parse_template
parse_template-escape s e p = ap (λ o. add_escape o (λ n. parse_template n s)) p

escape-one : (s : Text) → escape (b'1' ∷ s) ≡ numbered b'1' s
unfolding escape
escape-one s = refl

-- No digit stands behind the first group.
parse_template-group :
    (x : ℕ) (y : Text)
    → is_digit x ≡ false
    → parse_template 0 (codes "\\1" ++ x ∷ y) ≡ prepend (group 1 ∷ []) (parse_template 0 (x ∷ y))
unfolding parse_template numbered
parse_template-group x y off =
    parse_template-escape (b'1' ∷ x ∷ y) (some (group 1 ∷ [], 1))
      (escape-one (x ∷ y) ∙ ap (λ b. two_digits b b'1' x y) off)

-- Two octal digits stand behind it.
abbrev pub octal_value : ℕ → ℕ → ℕ
octal_value c d = 64 + (8 * (c - b'0') + (d - b'0'))

leb_le : (a b : ℕ) → leb a b ≡ true → a ≤ b
leb_le a b h = ground arith

octal_le : (c : ℕ) → is_octal c ≡ true → c ≤ b'7'
octal_le c h = leb_le c b'7' (&&-right (leb b'0' c) (leb c b'7') h)

not_above : (n : ℕ) → n ≤ 255 → ltb 255 n ≡ false
not_above n h = ground arith

bound : (c d : ℕ) → c ≤ b'7' → d ≤ b'7' → octal_value c d ≤ 255
bound c d hc hd = omega arith

above_two : (n : ℕ) → ltb 2 (10 + n) ≡ true
above_two n = ground arith

octal_low : (c d : ℕ) → is_octal c ≡ true → is_octal d ≡ true → ltb 255 (octal_value c d) ≡ false
octal_low c d oc od = not_above (octal_value c d) (bound c d (octal_le c oc) (octal_le d od))

octal_of-one :
    (c d : ℕ) (y : Text)
    → octal_of b'1' c (d ∷ y) ≡ (if is_octal c && is_octal d then some (octal_value c d) else none)
octal_of-one c d y = refl

numbered-digits :
    (c d : ℕ) (y : Text) (b : Bool)
    → is_digit c ≡ true
    → is_octal c && is_octal d ≡ b
    → escape (b'1' ∷ c ∷ d ∷ y)
      ≡ octal_or (if b then some (octal_value c d) else none) (group_of (10 + (c - b'0')) 2)
unfolding numbered
numbered-digits c d y b digit e =
    escape-one (c ∷ d ∷ y)
    ∙ ap (λ a. two_digits a b'1' c (d ∷ y)) digit
    ∙ ap (λ a. octal_or (if a then some (octal_value c d) else none) (group_of (10 + (c - b'0')) 2))
        e

parse_template-octal :
    (c d : ℕ) (y : Text)
    → is_digit c ≡ true
    → is_octal c && is_octal d ≡ true
    → parse_template 0 (codes "\\1" ++ c ∷ d ∷ y)
      ≡ prepend (literal (octal_value c d) ∷ []) (parse_template 0 y)
unfolding parse_template
parse_template-octal c d y digit e =
    parse_template-escape (b'1' ∷ c ∷ d ∷ y) (some (literal (octal_value c d) ∷ [], 3)) (
      numbered-digits c d y true digit e
      ∙ ap (λ b. if b then none else some (literal (octal_value c d) ∷ [], 3))
          (octal_low c d (&&-left (is_octal c) (is_octal d) e)
            (&&-right (is_octal c) (is_octal d) e)))

parse_template-none :
    (c d : ℕ) (y : Text)
    → is_digit c ≡ true
    → is_octal c && is_octal d ≡ false
    → parse_template 0 (codes "\\1" ++ c ∷ d ∷ y) ≡ none
parse_template-none c d y digit e = parse_template-escape (b'1' ∷ c ∷ d ∷ y) none (
    numbered-digits c d y false digit e
    ∙ ap (λ b. if b then none else some (group (10 + (c - b'0')) ∷ [], 2)) (above_two (c - b'0')))

doubled-cons : (c : ℕ) (e : Text) → doubled (c ∷ e) ++ ending ≡ escaped c ++ (doubled e ++ ending)
doubled-cons c e =
    ap (λ t. t ++ ending) (replace-cons c e) ∙ append_assoc (escaped c) (doubled e) ending

-- The template of a docstring, and what it is parsed to.
abbrev pub template_of : Text → Text
template_of e = codes "\\1" ++ (doubled e ++ ending)

abbrev pub whole_pieces : Text → Option (List Piece)
whole_pieces e = prepend (group 1 ∷ []) (prepend (literals (shown e)) last_piece)

abbrev pub octal_pieces : ℕ → ℕ → Text → Option (List Piece)
octal_pieces c d e =
    prepend (literal (octal_value c d) ∷ []) (prepend (literals (shown e)) last_piece)

pub template-free :
    (c : ℕ) (e : Text)
    → is_digit c ≡ false
    → parse_template 0 (template_of (c ∷ e)) ≡ whole_pieces (c ∷ e)
template-free c e off =
    let (x, y, starts, same) = first_escaped is_digit refl refl c (doubled e ++ ending) in
    let at_first = doubled-cons c e ∙ starts in
    ap (λ t. parse_template 0 (codes "\\1" ++ t)) at_first
    ∙ parse_template-group x y (same ∙ off)
    ∙ ap (λ t. prepend (group 1 ∷ []) (parse_template 0 t)) (sym at_first)
    ∙ ap (prepend (group 1 ∷ [])) (parse_template-doubled (c ∷ e))

pub template-nothing : parse_template 0 (template_of []) ≡ whole_pieces []
unfolding parse_template replace
template-nothing =
    parse_template-group b'\\' (b'2' ∷ []) refl
    ∙ ap (prepend (group 1 ∷ [])) (parse_template-doubled [])

digit_first :
    (c : ℕ) (e : Text) → is_digit c ≡ true → doubled (c ∷ e) ++ ending ≡ c ∷ (doubled e ++ ending)
digit_first c e digit =
    doubled-cons c e ∙ ap (λ t. t ++ (doubled e ++ ending)) (escaped-digit c digit)

&&-false : (a : Bool) → a && false ≡ false
&&-false true = refl
&&-false false = refl

pub template-one : (c : ℕ) → is_digit c ≡ true → parse_template 0 (template_of (c ∷ [])) ≡ none
unfolding parse_template replace
template-one c digit =
    ap (λ t. parse_template 0 (codes "\\1" ++ t)) (digit_first c [] digit)
    ∙ parse_template-none c b'\\' (b'2' ∷ []) digit (&&-false (is_octal c))

octal_digit : (d : ℕ) → is_octal d ≡ true → is_digit d ≡ true
octal_digit d h = grind arith

pub template-two :
    (c d : ℕ) (e : Text)
    → is_digit c ≡ true
    → parse_template 0 (template_of (c ∷ d ∷ e))
      ≡ (if is_octal c && is_octal d then octal_pieces c d e else none)
template-two c d e digit = elim (Bool-cases (is_octal c && is_octal d)) [
  | inl both ↦
      let second = digit_first d e (octal_digit d (&&-right (is_octal c) (is_octal d) both)) in
      ap (λ t. parse_template 0 (codes "\\1" ++ t))
        (digit_first c (d ∷ e) digit ∙ ap (◌∷◌ c) second)
      ∙ parse_template-octal c d (doubled e ++ ending) digit both
      ∙ ap (prepend (literal (octal_value c d) ∷ [])) (parse_template-doubled e)
      ∙ ap (λ b. if b then octal_pieces c d e else none) (sym both)
  | inr off ↦
      let (x, y, starts, same) = first_escaped is_octal refl refl d (doubled e ++ ending) in
      ap (λ t. parse_template 0 (codes "\\1" ++ t))
        (digit_first c (d ∷ e) digit ∙ ap (◌∷◌ c) (doubled-cons d e ∙ starts))
      ∙ parse_template-none c x y digit (ap (λ b. is_octal c && b) same ∙ off)
      ∙ ap (λ b. if b then octal_pieces c d e else none) (sym off)
]
