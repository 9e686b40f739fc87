-- ===== src/HeaderUtils/Tests.antt =====
-- The parser on small files, and the theorems at inputs that meet their hypotheses.
use aegir_sdr.Common.{false, none, some, ◌≡◌, refl, codes}
use aegir_sdr.HeaderUtils.{
  search_text, match_at, strip_prefix, word_chars, get_flags, get_header_filename,
  get_header_file_hash,
}
use aegir_sdr.HeaderUtils.RoundTrip.{Around, comment_block, get_flags-comment_block}

-- The beginning of AegirSDR_python.cc, behind the licence.
abbrev around : Around
around = record {
  before =
      codes
        "/* If manual edits are made, the following tags should be modified accordingly.    */\n/*";
  behind_automatic = codes "                                                      */\n/*";
  behind_pygccxml = codes "                                                        */\n/*";
  behind_file = codes "                                       */\n/*";
  rest = codes "                    */\n/****/\n\n#include <pybind11/complex.h>";
}

get_flags-comment_block_example :
    get_flags (
      comment_block around false false
        (codes "AegirSDR.h")
        (codes "9ddcbfb9e55cc8890e2eb2d4a79e9bac"))
    ≡ codes "False;False;AegirSDR.h;9ddcbfb9e55cc8890e2eb2d4a79e9bac;"
get_flags-comment_block_example =
    get_flags-comment_block around false false (codes "AegirSDR.h")
      (codes "9ddcbfb9e55cc8890e2eb2d4a79e9bac") refl refl refl refl

-- The group of `[^\s]*` runs to the last parenthesis of its word.
get_header_filename_greedy :
    get_header_filename (codes "BINDTOOL_HEADER_FILE(a.h)b)c") ≡ some (codes "a.h)b")
unfolding get_header_filename search_text match_at strip_prefix word_chars
get_header_filename_greedy = refl

get_header_file_hash_absent : get_header_file_hash (codes "BINDTOOL_HEADER_FILE(a.h)") ≡ none
unfolding get_header_file_hash search_text match_at strip_prefix word_chars
get_header_file_hash_absent = refl
