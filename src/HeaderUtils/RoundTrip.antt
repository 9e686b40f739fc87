-- ===== src/HeaderUtils/RoundTrip.antt =====
-- The parameters of a comment block are read back from it.
use aegir_sdr.Common.{
  Bool, true, not, ◌&&◌, ap, Option, some, ◌++◌, ◌≡◌, refl, ◌∙◌, Text, codes, ◌==◌, all,
}
use aegir_sdr.HeaderUtils.{
  strip_prefix, one_char, word_chars, match_at, search_text, header_file, header_file_hash,
  get_flag_automatic, get_flag_pygccxml, get_header_filename, get_header_file_hash, get_flags,
  str_bool, is_one,
}
use aegir_sdr.Doxyxml.Description.Breaks.{&&-left, &&-right}
use aegir_sdr.HeaderUtils.Search.{
  no_spaces, has_no_opening, gap_skip, search_text-stopped, word_chars-word, search_text_here,
  automatic_line, pygccxml_line, file_line, hash_line, pygccxml-over_automatic, file-over_automatic,
  hash-over_automatic, file-over_pygccxml, hash-over_pygccxml, automatic_found, pygccxml_found,
  file_at_line, hash-over_file, hash-over_end, hash_at_line,
}

-- What is free in a pybind file around the four parameters: what stands in front of them, between them, and
-- behind them.
pub record Around : Type 0 where
  pub before : Text
  pub behind_automatic : Text
  pub behind_pygccxml : Text
  pub behind_file : Text
  pub rest : Text

-- A file with the four parameters in their order, each behind a space, and with a space behind it.
abbrev pub comment_block : Around → Bool → Bool → Text → Text → Text
comment_block a automatic pygccxml filename hash =
    a.before
    ++ automatic_line automatic (
        a.behind_automatic
        ++ pygccxml_line pygccxml
            (a.behind_pygccxml ++ file_line filename (a.behind_file ++ hash_line hash a.rest)))

abbrev pub are_unopened : Around → Bool
are_unopened a =
    has_no_opening a.before
    && (has_no_opening a.behind_automatic
        && (has_no_opening a.behind_pygccxml && has_no_opening a.behind_file))

module _ (a : Around) (automatic pygccxml : Bool) (filename hash : Text)
    (open_before : has_no_opening a.before ≡ true)
    (open_automatic : has_no_opening a.behind_automatic ≡ true)
    (open_pygccxml : has_no_opening a.behind_pygccxml ≡ true)
    (open_file : has_no_opening a.behind_file ≡ true) where
  abbrev third : Text
  third = file_line filename (a.behind_file ++ hash_line hash a.rest)

  abbrev second : Text
  second = pygccxml_line pygccxml (a.behind_pygccxml ++ third)

  automatic_read : get_flag_automatic (comment_block a automatic pygccxml filename hash) ≡ automatic
  unfolding get_flag_automatic
  automatic_read =
      ap is_one (gap_skip (codes "BINDTOOL_GEN_AUTOMATIC") one_char a.before _ refl open_before)
      ∙ automatic_found automatic (a.behind_automatic ++ second)

  -- A search for a later parameter passes over the first.
  after_automatic :
      (name : Text) (argument : Text → Option Text)
      → all (λ c. not (c == b' ')) name ≡ true
      → ((b : Bool) (s : Text)
          → search_text (match_at name argument) (automatic_line b s)
            ≡ search_text (match_at name argument) s)
      → search_text (match_at name argument) (comment_block a automatic pygccxml filename hash)
        ≡ search_text (match_at name argument) second
  after_automatic name argument h over =
      gap_skip name argument a.before _ h open_before
      ∙ over automatic (a.behind_automatic ++ second)
      ∙ gap_skip name argument a.behind_automatic _ h open_automatic

  after_pygccxml :
      (name : Text) (argument : Text → Option Text)
      → all (λ c. not (c == b' ')) name ≡ true
      → ((b : Bool) (s : Text)
          → search_text (match_at name argument) (automatic_line b s)
            ≡ search_text (match_at name argument) s)
      → ((b : Bool) (s : Text)
          → search_text (match_at name argument) (pygccxml_line b s)
            ≡ search_text (match_at name argument) s)
      → search_text (match_at name argument) (comment_block a automatic pygccxml filename hash)
        ≡ search_text (match_at name argument) third
  after_pygccxml name argument h over then_over =
      after_automatic name argument h over
      ∙ then_over pygccxml (a.behind_pygccxml ++ third)
      ∙ gap_skip name argument a.behind_pygccxml _ h open_pygccxml

  pygccxml_read : get_flag_pygccxml (comment_block a automatic pygccxml filename hash) ≡ pygccxml
  unfolding get_flag_pygccxml
  pygccxml_read =
      ap is_one
        (after_automatic (codes "BINDTOOL_USE_PYGCCXML") one_char refl pygccxml-over_automatic)
      ∙ pygccxml_found pygccxml (a.behind_pygccxml ++ third)

  filename_read :
      no_spaces filename ≡ true
      → get_header_filename (comment_block a automatic pygccxml filename hash) ≡ some filename
  unfolding get_header_filename match_at strip_prefix
  filename_read h =
      after_pygccxml (codes "BINDTOOL_HEADER_FILE") word_chars refl file-over_automatic
        file-over_pygccxml
      ∙ file_at_line filename _
      ∙ search_text_here header_file _ (word_chars-word filename _ h)

  hash_read :
      has_no_opening filename ≡ true
      → no_spaces hash ≡ true
      → get_header_file_hash (comment_block a automatic pygccxml filename hash) ≡ some hash
  unfolding get_header_file_hash match_at strip_prefix
  hash_read unopened h =
      after_pygccxml (codes "BINDTOOL_HEADER_FILE_HASH") word_chars refl hash-over_automatic
        hash-over_pygccxml
      ∙ hash-over_file filename _
      ∙ search_text-stopped (codes "BINDTOOL_HEADER_FILE_HASH") word_chars b')' filename _ refl refl
          unopened
      ∙ hash-over_end _
      ∙ gap_skip (codes "BINDTOOL_HEADER_FILE_HASH") word_chars a.behind_file _ refl open_file
      ∙ hash_at_line hash _
      ∙ search_text_here header_file_hash _ (word_chars-word hash _ h)

-- From a file with the four parameters in the order in which bindtool writes them, each between spaces,
-- `get_flags` prints them, whatever stands behind the last, if there is no opening parenthesis in front of the first,
-- between them, and in the file name, and the file name and the hash have no white space.
pub get_flags-comment_block :
    (a : Around) (automatic pygccxml : Bool) (filename hash : Text)
    → are_unopened a ≡ true
    → no_spaces filename ≡ true
    → has_no_opening filename ≡ true
    → no_spaces hash ≡ true
    → get_flags (comment_block a automatic pygccxml filename hash)
      ≡ str_bool automatic
        ++ (codes ";"
            ++ (str_bool pygccxml
                ++ (codes ";" ++ (filename ++ (codes ";" ++ (hash ++ codes ";"))))))
unfolding get_flags
get_flags-comment_block a automatic pygccxml filename hash closed plain unopened digest =
    let behind = &&-right _ _ closed in
    let last = &&-right _ _ behind in
    let o1 = &&-left _ _ closed in
    let o2 = &&-left _ _ behind in
    let o3 = &&-left _ _ last in
    let o4 = &&-right _ _ last in
    rw (
      automatic_read a automatic pygccxml filename hash o1 o2 o3 o4,
      pygccxml_read a automatic pygccxml filename hash o1 o2 o3 o4,
      filename_read a automatic pygccxml filename hash o1 o2 o3 o4 plain,
      hash_read a automatic pygccxml filename hash o1 o2 o3 o4 unopened digest,
    )
