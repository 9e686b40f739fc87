-- ===== src/Pydoc/Template.antt =====
-- The template of a substitution, as `re` reads it: the second argument of `regexp.subn` in
-- gr-Aegir/docs/doxygen/update_pydoc.py. The expression has two groups.
pub mod Escaped
pub mod Docstring
use aegir_sdr.Common.{
  ℕ, zero, suc, ◌+◌, ◌-◌, ◌*◌, Bool, true, false, ◌&&◌, ◌||◌, Option, none, some, List, [], ◌∷◌,
  ◌++◌, Text, codes, length, all, leb, ltb, ◌==◌, if◌then◌else◌,
}

pub data Piece : Type 0 where
  literal : ℕ → Piece
  group : ℕ → Piece

abbrev pub is_digit : ℕ → Bool
is_digit c = leb b'0' c && leb c b'9'

abbrev pub is_octal : ℕ → Bool
is_octal c = leb b'0' c && leb c b'7'

abbrev is_letter : ℕ → Bool
is_letter c = (leb b'a' c && leb c b'z') || (leb b'A' c && leb c b'Z')

-- The pieces of an escape, and how many characters behind its backslash it takes; `none` is `re.error`.
abbrev pub group_of : ℕ → ℕ → Option (List Piece × ℕ)
group_of n used = if ltb 2 n then none else some (group n ∷ [], used)

-- Three digits behind the backslash are a character if they are octal digits.
abbrev pub octal_of : ℕ → ℕ → Text → Option ℕ
octal_of c d [] = none
octal_of c d (e ∷ s) =
    if is_octal c && (is_octal d && is_octal e)
    then some (64 * (c - b'0') + (8 * (d - b'0') + (e - b'0')))
    else none

abbrev pub character_of : ℕ → Option (List Piece × ℕ)
character_of n = if ltb 255 n then none else some (literal n ∷ [], 3)

abbrev pub octal_or : Option ℕ → Option (List Piece × ℕ) → Option (List Piece × ℕ)
octal_or none other = other
octal_or (some n) other = character_of n

-- A digit other than 0, before a character that is a digit or not
abbrev pub two_digits : Bool → ℕ → ℕ → Text → Option (List Piece × ℕ)
two_digits false c d s = group_of (c - b'0') 1
two_digits true c d s = octal_or (octal_of c d s) (group_of (10 * (c - b'0') + (d - b'0')) 2)

unfoldable pub numbered : ℕ → Text → Option (List Piece × ℕ)
numbered c [] = group_of (c - b'0') 1
numbered c (d ∷ s) = two_digits (is_digit d) c d s

-- The digit 0, with at most two octal digits
unfoldable pub after_zero : Text → Option (List Piece × ℕ)
after_zero [] = some (literal 0 ∷ [], 1)
after_zero (d ∷ []) =
    if is_octal d then some (literal (d - b'0') ∷ [], 2) else some (literal 0 ∷ [], 1)
after_zero (d ∷ e ∷ s) = elim (is_octal d) [
  | false ↦ some (literal 0 ∷ [], 1)
  | true ↦
      if is_octal e
      then some (literal (8 * (d - b'0') + (e - b'0')) ∷ [], 3)
      else some (literal (d - b'0') ∷ [], 2)
]

-- What stands in front of the first `>`
abbrev until_close : Text → Text → Option Text
until_close seen [] = none
until_close seen (c ∷ s) = if c == b'>' then some seen else until_close (seen ++ c ∷ []) s

abbrev number_of : ℕ → Text → ℕ
number_of n [] = n
number_of n (c ∷ s) = number_of (n * 10 + (c - b'0')) s

-- `\g<n>`; the groups have no names, so that any other name is an error.
abbrev by_name : Option Text → Option (List Piece × ℕ)
by_name none = none
by_name (some []) = none
by_name (some (c ∷ name)) =
    if all is_digit (c ∷ name)
    then group_of (number_of 0 (c ∷ name)) (3 + length (c ∷ name))
    else none

unfoldable pub after_g : Text → Option (List Piece × ℕ)
after_g [] = none
after_g (c ∷ s) = if c == b'<' then by_name (until_close [] s) else none

abbrev escapes : List (ℕ × ℕ)
escapes =
    (b'a', 7)
    ∷ (b'b', 8)
    ∷ (b'f', 12)
    ∷ (b'n', 10)
    ∷ (b'r', 13)
    ∷ (b't', 9)
    ∷ (b'v', 11)
    ∷ (b'\\', b'\\')
    ∷ []

abbrev find_escape : List (ℕ × ℕ) → ℕ → Option ℕ
find_escape [] c = none
find_escape ((k, x) ∷ es) c = if k == c then some x else find_escape es c

-- Any other character: one of the known escapes, an error at a letter, and as it stands otherwise.
unfoldable pub known_escape : ℕ → Option (List Piece × ℕ)
known_escape c = elim (find_escape escapes c) [
  | some x ↦ some (literal x ∷ [], 1)
  | none ↦ if is_letter c then none else some (literal b'\\' ∷ literal c ∷ [], 1)
]

unfoldable pub escape : Text → Option (List Piece × ℕ)
unfolding after_zero after_g
escape [] = none
escape (c ∷ s) = elim (c == b'g') [
  | true ↦ after_g s
  | false ↦ elim (c == b'0') [
    | true ↦ after_zero s
    | false ↦ elim (is_digit c) [ true ↦ numbered c s | false ↦ known_escape c ]
  ]
]

abbrev pub prepend : List Piece → Option (List Piece) → Option (List Piece)
prepend ps none = none
prepend ps (some qs) = some (ps ++ qs)

abbrev pub add_escape : Option (List Piece × ℕ) → (ℕ → Option (List Piece)) → Option (List Piece)
add_escape none rest = none
add_escape (some (ps, n)) rest = prepend ps (rest n)

-- The template, where so many characters belong to the escape in front.
unfoldable pub parse_template : ℕ → Text → Option (List Piece)
parse_template n [] = some []
parse_template (suc n) (c ∷ s) = parse_template n s
parse_template zero (c ∷ s) = elim (c == b'\\') [
  | false ↦ prepend (literal c ∷ []) (parse_template 0 s)
  | true ↦ add_escape (escape s) (λ n. parse_template n s)
]
