-- ===== src/Doxypy/Conserve.antt =====
-- What the callbacks of the filter do with the lines that they are called for: the lines that do not go to
-- `appendCommentLine`, in their order, against the output and `self.defclass`.
mod Step
pub mod Plain
use aegir_sdr.Common.{
  Bool, false, not, ◌&&◌, ◌||◌, Option, none, some, List, [], ◌∷◌, ◌++◌, ap, Text, subst,
  if◌then◌else◌, ◌⊎◌, subst, eq_text, eq_text_iff,
}
use aegir_sdr.Doxypy.Patterns.{
  Match, group1, Condition, comment, start_comment, check, single_quotes, double_quotes,
}
use aegir_sdr.Doxypy.Machine.{
  State, is_state, Callback, Transition, transitions, select, Doxypy, call, on_start, on_comment,
  with_group, CommentPart, single_line, multiline_start, multiline_end, in_multiline, comment_part,
  on_part, append_comment, single_line_body, end_line_body, start_line_body, close_at_body,
  dispatch, in_defclass, filehead, defclass_body, filehead_comment_single, filehead_comment_double,
  comment_single, comment_double, append_comment_line, append_filehead_line, append_defclass_line,
  append_normal_line, reset_comment_search, start_comment_search, stop_comment_search,
  comment_block,
}
use aegir_sdr.Doxypy.Total.{run-returns, parse_lines-finish}
use aegir_sdr.Doxypy.Weave.{Weave, Weave-append, Weave-refl, Weave-close, code}
use aegir_sdr.Doxypy.Conserve.Step.{is_head, code_of, Kept, HeadEmpty}
use aegir_sdr.Doxypy.Filter.{parse_lines}

-- The lines that are no part of a docstring, from a state on.
unfoldable pub code_at : Option (Transition × Match) → Text → List Text
code_at none line = line ∷ []
code_at (some (t, m)) line = code_of t.callback line

unfoldable pub state_at : State → Option (Transition × Match) → State
state_at s none = s
state_at s (some (t, m)) = t.to_state

unfoldable pub code_lines : State → List Text → List Text
code_lines s [] = []
code_lines s (line ∷ lines) =
    let found = select s line transitions in
    code_at found line ++ code_lines (state_at s found) lines

abbrev pub Consistent : List Text → Doxypy → Type 0
Consistent ks d = Kept ks d.output d.defclass_lines × HeadEmpty d.current_state d.defclass_lines

-- The state after some lines.
unfoldable pub state_after : State → List Text → State
state_after s [] = s
state_after s (line ∷ lines) = state_after (state_at s (select s line transitions)) lines

-- The states in which nothing waits once `parse` has ended.
abbrev pub settled : State → Bool
settled s = is_head s || is_state s in_defclass
