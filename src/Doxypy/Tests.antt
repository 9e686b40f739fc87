-- ===== src/Doxypy/Tests.antt =====
-- The filter on small files, and the theorems at inputs that meet their hypotheses.
use aegir_sdr.Common.{
  true, false, some, List, [], ◌∷◌, ◌≡◌, refl, Text, codes, eq_text, map, starts_with, split_on,
  join,
}
use aegir_sdr.Regex.{matches}
use aegir_sdr.Doxypy.Patterns.{check, group1, indent_of}
use aegir_sdr.Doxypy.Machine.{
  Doxypy, init, is_state, transitions, attempt, select, call, on_comment, with_group,
  append_comment, comment_part, on_part, on_start, close_comment, comment_block, brief_comment,
  close_at_body, single_line_body, start_line_body, end_line_body, make_transition, dispatch,
  in_defclass, defclass_multi,
}
use aegir_sdr.Doxypy.Filter.{parse, parse_lines, parse_file, run, finish, rstrip_newlines}
use aegir_sdr.Doxypy.Total.{parse-returns}
use aegir_sdr.Doxypy.Weave.{Weave}
use aegir_sdr.Doxypy.Stream.{parse_file-eq-parse_lines, unlines}
use aegir_sdr.Doxypy.Docstring.{single, closed_with, docstring_moves, open_header_lost}

-- What a run on a given text computes with.
runs : Unit {0}
unfolding parse parse_lines run finish make_transition dispatch attempt select transitions check
    matches is_state call comment_part on_part with_group append_comment on_comment on_start
    close_comment comment_block brief_comment close_at_body single_line_body start_line_body
    end_line_body eq_text starts_with split_on join init group1 indent_of
runs = tt

abbrev sample : Text
sample = codes "import os\ndef f(a):\n    '''Doc'''\n    return a"

parse-sample : parse false sample ≡ some (codes "import os\n##\n# Doc\ndef f(a):\n    return a")
unfolding runs
parse-sample = refl

parse-returns_example : (out : Text) × (parse true sample ≡ some out)
parse-returns_example = parse-returns true sample

abbrev lines : List Text
lines = codes "import os" ∷ codes "def f(a):" ∷ codes "    '''Doc'''" ∷ codes "    return a" ∷ []

abbrev filtered : List Text
filtered =
    codes "import os" ∷ codes "##" ∷ codes "# Doc" ∷ codes "def f(a):" ∷ codes "    return a" ∷ []

parse_lines_sample : parse_lines false lines ≡ some filtered
unfolding runs
parse_lines_sample = refl

-- A file without docstrings.
abbrev undocumented : List Text
undocumented = codes "import os" ∷ codes "def f(a):" ∷ codes "    return a" ∷ []

parse_lines_stripped : parse_lines false (map rstrip_newlines lines) ≡ some filtered
unfolding runs rstrip_newlines
parse_lines_stripped = refl

parse_file-eq-parse_lines_example : parse_file false lines ≡ some (unlines filtered)
parse_file-eq-parse_lines_example =
    parse_file-eq-parse_lines false lines filtered parse_lines_stripped

-- The object behind the line `    def f(self):`.
abbrev searching : Doxypy
searching = record {
  autobrief = false;
  current_state = in_defclass;
  output = [];
  comment_lines = [];
  defclass_lines = codes "    def f(self):" ∷ [];
  indent = codes "    ";
}

docstring_moves_example :
    run searching (codes "        '''One" ∷ (codes "        two" ∷ (codes "        '''" ∷ [])))
    ≡ run (closed_with (codes "One" ∷ (codes "        two" ∷ (codes "        " ∷ []))) searching) []
unfolding runs
docstring_moves_example =
    docstring_moves single searching (codes "        '''One") (codes "        '''")
      (codes "        two" ∷ []) [] refl refl (refl, refl, refl) (refl, tt) refl

abbrev in_header : Doxypy
in_header = record searching {
  current_state = defclass_multi;
  defclass_lines = codes "def f(a," ∷ [];
}

open_header_lost_example :
    (e : Doxypy) × (run in_header (codes "      b):  # note" ∷ codes "    return a" ∷ []) ≡ some e)
    × ((finish e).output ≡ in_header.output)
unfolding runs
open_header_lost_example =
    open_header_lost in_header (codes "      b):  # note" ∷ codes "    return a" ∷ []) refl
      (refl, (refl, tt))

-- A docstring at the head of a file with nothing behind it is dropped.
head_docstring_dropped : parse_lines false (codes "'''About'''" ∷ []) ≡ some []
unfolding runs
head_docstring_dropped = refl
