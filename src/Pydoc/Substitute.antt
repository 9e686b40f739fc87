-- ===== src/Pydoc/Substitute.antt =====
-- `sub_docstring_in_pydoc_h` and `copy_docstring_templates` of gr-Aegir/docs/doxygen/update_pydoc.py,
-- which write docstrings into the raw string literals of header files. The files come and go as texts.
-- The key of an entry is put into the expression as it stands. For a key with characters that have a
-- meaning there, what the body of the loop does is an argument, `other`.
pub mod First
use aegir_sdr.Common.{
  ℕ, zero, suc, ◌-◌, Bool, not, all, any, true, false, ◌&&◌, Option, none, some, List, [], ◌∷◌,
  ◌++◌, Text, codes, length, drop, take, find, starts_with, split_on, join, is_space, ◌==◌,
  if◌then◌else◌,
}
use aegir_sdr.Doxyxml.Base.{split_colons}
use aegir_sdr.Pydoc.{last_bit}
use aegir_sdr.Pydoc.Template.{Piece, literal, group, parse_template}

-- A match: what stands in front of it, its first group, what stands between its groups, and what
-- stands behind it. The second group is always `closing`.
pub record Match : Type 0 where
  pub before : Text
  pub opening : Text
  pub body : Text
  pub after : Text

abbrev pub closing : Text
closing = codes ")doc\""

-- `[^)]*`: what it takes, and what is left
abbrev span_body : Text → Text × Text
span_body [] = ([], [])
span_body (c ∷ s) = if c == b')' then ([], c ∷ s) else (c ∷ (span_body s).0, (span_body s).1)

abbrev close_match : Text → Text × Text → Option Match
close_match opening (body, rest) =
    if starts_with rest closing
    then some
        (record { before = []; opening = opening; body = body; after = drop (length closing) rest })
    else none

-- The white space and the start of the literal, behind the name
abbrev open_match : Text → Text → Option Match
open_match head [] = none
open_match head (c ∷ s) =
    if is_space c && starts_with s (codes "R\"doc(")
    then close_match (head ++ c ∷ codes "R\"doc(") (span_body (drop 6 s))
    else none

abbrev head_of : Text → Text
head_of doc_key = codes "__doc_" ++ (doc_key ++ codes " =")

unfoldable pub match_at : Text → Text → Option Match
match_at doc_key s =
    if starts_with s (head_of doc_key)
    then open_match (head_of doc_key) (drop (length (head_of doc_key)) s)
    else none

abbrev pub push : ℕ → Option Match → Option Match
push c none = none
push c (some m) = some (record m { before = c ∷ m.before })

unfoldable pub first_match : Text → Text → Option Match
unfolding match_at
first_match doc_key [] = none
first_match doc_key (c ∷ s) = elim (match_at doc_key (c ∷ s)) [
  | some m ↦ some m
  | none ↦ push c (first_match doc_key s)
]

-- The text of a template at a match
abbrev group_text : Match → ℕ → Text
group_text m zero = m.opening ++ (m.body ++ closing)
group_text m (suc zero) = m.opening
group_text m (suc (suc n)) = closing

unfoldable pub expand : Match → List Piece → Text
expand m [] = []
expand m (literal c ∷ ps) = c ∷ expand m ps
expand m (group n ∷ ps) = group_text m n ++ expand m ps

abbrev pub doc_key_of : Text → Text
doc_key_of key = join (codes "_") (split_colons key)

-- What is written of the status of a file: a line PASS, a line FAIL, or nothing.
pub data Status : Type 0 where
  pass fail silent : Status

-- What the expression and the template make of a file; the template is read first, and an error in it
-- leaves the file as it is.
abbrev pub write_match : Text → Option Match → List Piece → Text × Status
write_match file none ps = (file, silent)
write_match file (some m) ps = (m.before ++ (expand m ps ++ m.after), pass)

abbrev pub write_template : Text → Option Match → Option (List Piece) → Text × Status
write_template file m none = (file, fail)
write_template file m (some ps) = write_match file m ps

-- A character that has a meaning in expressions.
abbrev pub is_special : ℕ → Bool
is_special c = any (◌==◌ c) (codes ".^$*+?{}[]\\|()")

abbrev pub is_plain : Text → Bool
is_plain = all (λ c. not (is_special c))

module _ (other : Text → Text → Text → Text × Status) where
  -- The body of the loop over the entries
  unfoldable pub sub_entry : Text → Text → Text → Text × Status
  sub_entry key value file = elim (is_plain (doc_key_of key)) [
    | true ↦
        write_template file (first_match (doc_key_of key) file)
          (parse_template 0 (codes "\\1" ++ (value ++ codes "\\2")))
    | false ↦ other key value file
  ]

  -- The loop over the entries, with the status lines
  unfoldable pub sub_entries : List (Text × Text) → Text → Text × List Status
  sub_entries [] file = (file, [])
  sub_entries ((key, value) ∷ es) file =
      let (sub, status) = sub_entry key value file in
      let (rest, statuses) = sub_entries es sub in (rest, status ∷ statuses)

-- `s.replace(p, r)` for a text `p` that is not empty; so many characters of an occurrence are passed.
abbrev pub replace_text : ℕ → Text → Text → Text → Text
replace_text n [] p r = []
replace_text (suc n) (c ∷ s) p r = replace_text n s p r
replace_text zero (c ∷ s) p r = elim (starts_with (c ∷ s) p) [
  | true ↦ r ++ replace_text (length p - 1) s p r
  | false ↦ c ∷ replace_text 0 s p r
]

-- `os.path.basename`
abbrev pub basename : Text → Text
basename path = last_bit (split_on b'/' path)

abbrev pub output_name : Text → Text
output_name path = replace_text 0 (basename path) (codes "_template.h") (codes ".h")

-- `s.split(p)[0]`
abbrev pub before_text : Text → Text → Text
before_text s p = elim (find s p) [ none ↦ s | some n ↦ take n s ]

abbrev pub with_prefix : Text → List (Text × Text) → List (Text × Text)
with_prefix p [] = []
with_prefix p ((k, v) ∷ es) =
    if starts_with k p then (k, v) ∷ with_prefix p es else with_prefix p es

-- The entries for a file
abbrev pub entries_for : Option Text → Text → List (Text × Text) → List (Text × Text)
entries_for none path es = es
entries_for (some []) path es = es
entries_for (some (c ∷ f)) path es =
    with_prefix ((c ∷ f) ++ (codes "::" ++ before_text (basename path) (codes "_pydoc_template.h")))
      (with_prefix (c ∷ f) es)

-- The files that are written, with their names, and the lines of the status file
unfoldable pub sub_docstring_in_pydoc_h :
    (Text → Text → Text → Text × Status)
    → List (Text × Text)
    → List (Text × Text)
    → Option Text
    → List (Text × Text) × List (Text × List Status)
sub_docstring_in_pydoc_h other [] docstrings filter = ([], [])
sub_docstring_in_pydoc_h other ((path, file) ∷ files) docstrings filter =
    let (sub, statuses) = sub_entries other (entries_for filter path docstrings) file in
    let (written, status) = sub_docstring_in_pydoc_h other files docstrings filter in
    ((output_name path, sub) ∷ written, (path, statuses) ∷ status)

abbrev pub copy_docstring_templates : List (Text × Text) → List (Text × Text)
copy_docstring_templates [] = []
copy_docstring_templates ((path, file) ∷ files) =
    (output_name path, file) ∷ copy_docstring_templates files
