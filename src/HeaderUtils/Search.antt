-- ===== src/HeaderUtils/Search.antt =====
-- What the searches make of the lines of a comment block.
use aegir_sdr.Common.{
  ℕ, Bool, true, false, not, Option, none, some, [], ◌∷◌, ◌++◌, ◌≡◌, refl, Text, codes, ◌==◌,
  is_space, eq_text, all, arith,
}
use aegir_sdr.HeaderUtils.{
  strip_prefix, one_char, word_chars, match_at, search_text, header_file, header_file_hash, is_one,
  gen_automatic, use_pygccxml,
}

abbrev pub flag : Bool → Text
flag true = codes "1"
flag false = codes "0"

abbrev pub no_spaces : Text → Bool
no_spaces = all (λ c. not (is_space c))

-- A word, its parenthesis and white space: the greedy group is the word.
pub word_chars-word :
    (w rest : Text) → no_spaces w ≡ true → word_chars (w ++ (b')' ∷ (b' ' ∷ rest))) ≡ some w
unfolding word_chars
word_chars-word [] rest h = refl
word_chars-word (c ∷ w) rest h = ground (arith, word_chars-word w rest)

abbrev pub has_no_opening : Text → Bool
has_no_opening = all (λ c. not (c == b'('))

-- A name with an opening parenthesis does not begin in text that has another character before it opens
-- one.
strip_prefix-stopped :
    (x : ℕ) (p w rest : Text)
    → (x == b'(') ≡ false
    → all (λ c. not (c == x)) p ≡ true
    → has_no_opening w ≡ true
    → strip_prefix (p ++ b'(' ∷ []) (w ++ (x ∷ rest)) ≡ none
unfolding strip_prefix
strip_prefix-stopped x [] [] rest other h k = rw other refl
strip_prefix-stopped x [] (c ∷ w) rest other h k = ground arith
strip_prefix-stopped x (p ∷ ps) [] rest other h k = ground arith
strip_prefix-stopped x (p ∷ ps) (c ∷ w) rest other h k =
    ground (arith, strip_prefix-stopped x ps w rest other)

pub search_text-stopped :
    (name : Text) (argument : Text → Option Text) (x : ℕ) (w rest : Text)
    → (x == b'(') ≡ false
    → all (λ c. not (c == x)) name ≡ true
    → has_no_opening w ≡ true
    → search_text (match_at name argument) (w ++ (x ∷ rest))
      ≡ search_text (match_at name argument) (x ∷ rest)
unfolding search_text match_at
search_text-stopped name argument x [] rest other h k = refl
search_text-stopped name argument x (c ∷ w) rest other h k =
    rw (strip_prefix-stopped x name (c ∷ w) rest other h k, search_text)
      (search_text-stopped name argument x w rest other h (ground arith))

pub search_text_here :
    (at : Text → Option Text) (s : Text) {g : Text} → at s ≡ some g → search_text at s ≡ some g
unfolding search_text
search_text_here at [] h = h
search_text_here at (c ∷ s) h = rw (h, search_text)

-- The lines of the block, from each on, up to its padding and what stands between them.
abbrev pub hash_line : Text → Text → Text
hash_line hash rest = codes " BINDTOOL_HEADER_FILE_HASH(" ++ (hash ++ (codes ") " ++ rest))

abbrev pub file_line : Text → Text → Text
file_line filename rest = codes " BINDTOOL_HEADER_FILE(" ++ (filename ++ (codes ") " ++ rest))

abbrev pub pygccxml_line : Bool → Text → Text
pygccxml_line pygccxml rest =
    codes " BINDTOOL_USE_PYGCCXML(" ++ (flag pygccxml ++ (codes ") " ++ rest))

abbrev pub automatic_line : Bool → Text → Text
automatic_line automatic rest =
    codes " BINDTOOL_GEN_AUTOMATIC(" ++ (flag automatic ++ (codes ") " ++ rest))

-- A search passes over text without an opening parenthesis, in front of a space.
pub gap_skip :
    (name : Text) (argument : Text → Option Text) (w rest : Text)
    → all (λ c. not (c == b' ')) name ≡ true
    → has_no_opening w ≡ true
    → search_text (match_at name argument) (w ++ (b' ' ∷ rest))
      ≡ search_text (match_at name argument) (b' ' ∷ rest)
gap_skip name argument w rest h k = search_text-stopped name argument b' ' w rest refl h k

-- What a search makes of a line: a later parameter's passes over it, and its own finds it.
pub pygccxml-over_automatic :
    (b : Bool) (s : Text)
    → search_text use_pygccxml (automatic_line b s) ≡ search_text use_pygccxml s
unfolding search_text match_at strip_prefix
pygccxml-over_automatic true s = refl
pygccxml-over_automatic false s = refl

pub file-over_automatic :
    (b : Bool) (s : Text) → search_text header_file (automatic_line b s) ≡ search_text header_file s
unfolding search_text match_at strip_prefix
file-over_automatic true s = refl
file-over_automatic false s = refl

pub hash-over_automatic :
    (b : Bool) (s : Text)
    → search_text header_file_hash (automatic_line b s) ≡ search_text header_file_hash s
unfolding search_text match_at strip_prefix
hash-over_automatic true s = refl
hash-over_automatic false s = refl

pub file-over_pygccxml :
    (b : Bool) (s : Text) → search_text header_file (pygccxml_line b s) ≡ search_text header_file s
unfolding search_text match_at strip_prefix
file-over_pygccxml true s = refl
file-over_pygccxml false s = refl

pub hash-over_pygccxml :
    (b : Bool) (s : Text)
    → search_text header_file_hash (pygccxml_line b s) ≡ search_text header_file_hash s
unfolding search_text match_at strip_prefix
hash-over_pygccxml true s = refl
hash-over_pygccxml false s = refl

pub automatic_found :
    (b : Bool) (s : Text) → is_one (search_text gen_automatic (automatic_line b s)) ≡ b
unfolding search_text match_at strip_prefix one_char eq_text is_one
automatic_found true s = refl
automatic_found false s = refl

pub pygccxml_found :
    (b : Bool) (s : Text) → is_one (search_text use_pygccxml (pygccxml_line b s)) ≡ b
unfolding search_text match_at strip_prefix one_char eq_text is_one
pygccxml_found true s = refl
pygccxml_found false s = refl

pub file_at_line :
    (f s : Text)
    → search_text header_file (file_line f s)
      ≡ search_text header_file (codes "BINDTOOL_HEADER_FILE(" ++ (f ++ (codes ") " ++ s)))
unfolding search_text match_at strip_prefix
file_at_line f s = refl

pub hash-over_file :
    (f s : Text)
    → search_text header_file_hash (file_line f s)
      ≡ search_text header_file_hash (f ++ (codes ") " ++ s))
unfolding search_text match_at strip_prefix
hash-over_file f s = refl

pub hash-over_end :
    (s : Text) → search_text header_file_hash (codes ") " ++ s) ≡ search_text header_file_hash s
unfolding search_text match_at strip_prefix
hash-over_end s = refl

pub hash_at_line :
    (h s : Text)
    → search_text header_file_hash (hash_line h s)
      ≡ search_text header_file_hash
          (codes "BINDTOOL_HEADER_FILE_HASH(" ++ (h ++ (codes ") " ++ s)))
unfolding search_text match_at strip_prefix
hash_at_line h s = refl
