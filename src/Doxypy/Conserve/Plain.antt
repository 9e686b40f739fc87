-- ===== src/Doxypy/Conserve/Plain.antt =====
-- A file without docstrings is written as it is, but for comment blocks.
use aegir_sdr.Common.{
  Bool, true, false, not, ◌&&◌, ◌||◌, Option, none, some, List, [], ◌∷◌, Text, subst, all, subst,
  eq_text,
}
use aegir_sdr.Doxypy.Patterns.{
  Match, Condition, comment, start_comment, check, single_quotes, double_quotes,
}
use aegir_sdr.Doxypy.Machine.{
  State, Callback, Transition, filehead_comment_single, filehead_comment_double, comment_single,
  comment_double, append_comment_line,
}
use aegir_sdr.Doxypy.Weave.{Weave}

-- The conditions that a docstring is on a line, or begins on it.
abbrev pub openings : List Condition
openings =
    comment single_quotes
    ∷ comment double_quotes
    ∷ start_comment single_quotes
    ∷ start_comment double_quotes
    ∷ []

abbrev is_met : Option Match → Bool
is_met none = false
is_met (some m) = true

-- No docstring is on the line or begins on it.
abbrev pub has_no_docstring : Text → Bool
has_no_docstring line = all (λ c. not (is_met (check c line))) openings

abbrev is_quotes : Text → Bool
is_quotes q = eq_text q single_quotes || eq_text q double_quotes

abbrev is_opening : Condition → Bool
is_opening (comment q) = is_quotes q
is_opening (start_comment q) = is_quotes q
is_opening _ = false

abbrev is_comment_state : State → Bool
is_comment_state filehead_comment_single = true
is_comment_state filehead_comment_double = true
is_comment_state comment_single = true
is_comment_state comment_double = true
is_comment_state _ = false

abbrev is_code : Callback → Bool
is_code append_comment_line = false
is_code _ = true

-- Outside docstrings, only the conditions of a docstring take a line for one.
abbrev is_plain : Transition → Bool
is_plain t =
    is_comment_state t.from_state
    || (is_opening t.condition || (is_code t.callback && not (is_comment_state t.to_state)))
