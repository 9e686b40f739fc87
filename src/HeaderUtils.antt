-- ===== src/HeaderUtils.antt =====
-- gr-Aegir/python/Aegir/bindings/header_utils.py: the parameters in the comment block of a
-- pybind file, read by `re.search`.
pub mod Search
pub mod RoundTrip
mod Tests
use aegir_sdr.Common.{
  ℕ, Bool, true, false, not, ◌&&◌, Option, none, some, List, [], ◌∷◌, ◌++◌, Text, codes, ◌==◌,
  is_space, eq_text, if◌then◌else◌,
}

-- What stands behind a given beginning.
unfoldable pub strip_prefix : Text → Text → Option Text
strip_prefix [] s = some s
strip_prefix (p ∷ ps) [] = none
strip_prefix (p ∷ ps) (c ∷ s) = let rest = strip_prefix ps s in if c == p then rest else none

-- `([^\s])\)`, and its group
unfoldable pub one_char : Text → Option Text
one_char (c ∷ (d ∷ s)) = if not (is_space c) && d == b')' then some (c ∷ []) else none
one_char _ = none

-- `([^\s]*)\)`, which is greedy, and its group
unfoldable pub word_chars : Text → Option Text
word_chars [] = none
word_chars (c ∷ s) =
    if is_space c
    then none
    else elim (word_chars s) [ some g ↦ some (c ∷ g) | none ↦ if c == b')' then some [] else none ]

-- A pattern that begins with `NAME\(`, at the beginning of a text.
unfoldable pub match_at : Text → (Text → Option Text) → Text → Option Text
unfolding strip_prefix
match_at name argument s = elim (strip_prefix (name ++ b'(' ∷ []) s) [
  | none ↦ none
  | some rest ↦ argument rest
]

-- `re.search`: the group at the first place where the pattern matches
unfoldable pub search_text : (Text → Option Text) → Text → Option Text
search_text at [] = at []
search_text at (c ∷ s) = elim (at (c ∷ s)) [ some g ↦ some g | none ↦ search_text at s ]

abbrev pub gen_automatic : Text → Option Text
gen_automatic = match_at (codes "BINDTOOL_GEN_AUTOMATIC") one_char

abbrev pub use_pygccxml : Text → Option Text
use_pygccxml = match_at (codes "BINDTOOL_USE_PYGCCXML") one_char

abbrev pub header_file : Text → Option Text
header_file = match_at (codes "BINDTOOL_HEADER_FILE") word_chars

abbrev pub header_file_hash : Text → Option Text
header_file_hash = match_at (codes "BINDTOOL_HEADER_FILE_HASH") word_chars

-- `m and m.group(1) == '1'`
unfoldable pub is_one : Option Text → Bool
is_one none = false
is_one (some g) = eq_text g (codes "1")

-- A `PybindHeaderParser` is its `file_txt`.
unfoldable pub get_flag_automatic : Text → Bool
unfolding is_one
get_flag_automatic file_txt = is_one (search_text gen_automatic file_txt)

unfoldable pub get_flag_pygccxml : Text → Bool
unfolding is_one
get_flag_pygccxml file_txt = is_one (search_text use_pygccxml file_txt)

unfoldable pub get_header_filename : Text → Option Text
get_header_filename file_txt = search_text header_file file_txt

unfoldable pub get_header_file_hash : Text → Option Text
get_header_file_hash file_txt = search_text header_file_hash file_txt

-- `str` of a Boolean, and of a text or `None`
abbrev pub str_bool : Bool → Text
str_bool true = codes "True"
str_bool false = codes "False"

abbrev pub str_option : Option Text → Text
str_option none = codes "None"
str_option (some t) = t

-- `get_flags`
unfoldable pub get_flags : Text → Text
get_flags file_txt =
    str_bool (get_flag_automatic file_txt)
    ++ (codes ";"
        ++ (str_bool (get_flag_pygccxml file_txt)
            ++ (codes ";"
                ++ (str_option (get_header_filename file_txt)
                    ++ (codes ";" ++ (str_option (get_header_file_hash file_txt) ++ codes ";"))))))
