-- ===== src/Pydoc/Written.antt =====
-- What becomes of the text of a docstring in a header file.
use aegir_sdr.Common.{
  ℕ, true, ◌&&◌, Bool-cases, Option, none, some, inl, inr, List, [], ◌∷◌, ◌++◌, ◌≡◌, refl, sym, ap,
  ◌∙◌, Text, if◌then◌else◌,
}
use aegir_sdr.Pydoc.{encode_replace, utoascii}
use aegir_sdr.Pydoc.Template.{Piece, group, is_digit, is_octal, parse_template}
use aegir_sdr.Pydoc.Template.Docstring.{
  octal_value, whole_pieces, octal_pieces, template_of, template-free, template-nothing,
  template-one, template-two,
}
use aegir_sdr.Pydoc.Template.Escaped.{shown, literals}
use aegir_sdr.Pydoc.Substitute.{
  Match, closing, first_match, expand, doc_key_of, Status, pass, fail, silent, write_template,
  is_plain, sub_entry,
}
use aegir_sdr.Pydoc.Substitute.First.{IsFirst, first_match-IsFirst}

-- What a docstring puts in place of a match, from the first group on: a function of that group, or an error.
abbrev lost : ℕ → Text → Option (Text → Text)
lost c [] = none
lost c (d ∷ e) =
    if is_octal c && is_octal d
    then some (λ opening. octal_value c d ∷ (shown e ++ closing))
    else none

abbrev pub written : Text → Option (Text → Text)
written [] = some (λ opening. opening ++ closing)
written (c ∷ e) =
    if is_digit c then lost c e else some (λ opening. opening ++ (shown (c ∷ e) ++ closing))

abbrev pub outcome : Text → Option Match → Option (Text → Text) → Text × Status
outcome file m none = (file, fail)
outcome file none (some w) = (file, silent)
outcome file (some m) (some w) = (m.before ++ (w m.opening ++ m.after), pass)

expand-literals :
    (m : Match) (s : Text) (ps : List Piece) → expand m (literals s ++ ps) ≡ s ++ expand m ps
unfolding expand
expand-literals m [] ps = refl
expand-literals m (c ∷ s) ps = ap (◌∷◌ c) (expand-literals m s ps)

write-whole :
    (file : Text) (m : Option Match) (e : Text)
    → write_template file m (whole_pieces e)
      ≡ outcome file m (some (λ opening. opening ++ (shown e ++ closing)))
unfolding expand
write-whole file none e = refl
write-whole file (some m) e =
    ap (λ t. (m.before ++ ((m.opening ++ t) ++ m.after), pass))
      (expand-literals m (shown e) (group 2 ∷ []))

write-octal :
    (file : Text) (m : Option Match) (c d : ℕ) (e : Text)
    → write_template file m (octal_pieces c d e)
      ≡ outcome file m (some (λ opening. octal_value c d ∷ (shown e ++ closing)))
unfolding expand
write-octal file none c d e = refl
write-octal file (some m) c d e =
    ap (λ t. (m.before ++ ((octal_value c d ∷ t) ++ m.after), pass))
      (expand-literals m (shown e) (group 2 ∷ []))

write-lost :
    (file : Text) (m : Option Match) (c : ℕ) (e : Text)
    → is_digit c ≡ true
    → write_template file m (parse_template 0 (template_of (c ∷ e))) ≡ outcome file m (lost c e)
write-lost file m c [] digit = ap (write_template file m) (template-one c digit)
write-lost file m c (d ∷ e) digit = elim (Bool-cases (is_octal c && is_octal d)) [
  | inl both ↦ rw both (
      ap (write_template file m)
        (template-two c d e digit ∙ ap (λ b. if b then octal_pieces c d e else none) both)
      ∙ write-octal file m c d e)
  | inr off ↦ rw off (
      ap (write_template file m)
        (template-two c d e digit ∙ ap (λ b. if b then octal_pieces c d e else none) off))
]

write-template_of :
    (file : Text) (m : Option Match) (e : Text)
    → write_template file m (parse_template 0 (template_of e)) ≡ outcome file m (written e)
write-template_of file m [] = ap (write_template file m) template-nothing ∙ write-whole file m []
write-template_of file m (c ∷ e) = elim (Bool-cases (is_digit c)) [
  | inl digit ↦
      write-lost file m c e digit
      ∙ ap
          (λ b.
            outcome file m
              (if b then lost c e else some (λ opening. opening ++ (shown (c ∷ e) ++ closing))))
          (sym digit)
  | inr off ↦
      ap (write_template file m) (template-free c e off)
      ∙ write-whole file m (c ∷ e)
      ∙ ap
          (λ b.
            outcome file m
              (if b then lost c e else some (λ opening. opening ++ (shown (c ∷ e) ++ closing))))
          (sym off)
]

-- If the key has no character with a meaning in expressions, then the text of a docstring takes the place of what
-- stands between the groups of the first match, if there is one: a backslash of it twice and a double quote
-- with a backslash in front, and what is not ASCII as a question mark. But if the
-- text begins with two octal digits, then these become one character, the text that follows replaces the
-- first group as well, and the status is PASS; and behind any other digit at its beginning
-- the file is left as it is, with the status FAIL. The first match is the name, white space, and a raw literal without
-- a closing parenthesis, such that none begins in front of it.
pub sub_entry-utoascii :
    (other : Text → Text → Text → Text × Status) (key text file : Text)
    → is_plain (doc_key_of key) ≡ true
    → (m : Option Match) × IsFirst (doc_key_of key) file m
      × (sub_entry other key (utoascii (some text)) file
          ≡ outcome file m (written (encode_replace text)))
unfolding sub_entry utoascii
sub_entry-utoascii other key text file plain = (
  first_match (doc_key_of key) file,
  first_match-IsFirst (doc_key_of key) file,
  rw (plain, sub_entry)
      (write-template_of file (first_match (doc_key_of key) file) (encode_replace text)),
)
