-- ===== src/Doxypy/Total.antt =====
-- No callback reads a group that its match lacks, so that the filter raises on no input.
use aegir_sdr.Common.{
  Bool, true, false, not, ◌&&◌, ◌||◌, Option, none, some, List, [], ◌∷◌, ◌≡◌, refl, sym, ◌∙◌, Text,
  arith, all, Option-cases, ◌≢◌, split_on, join, ◌⊎◌, inl, inr, Bool-cases,
}
use aegir_sdr.Doxypy.Patterns.{
  Match, group1, Condition, comment, start_comment, end_comment, defclass, multiline_defclass_start,
  check,
}
use aegir_sdr.Doxypy.Machine.{
  is_state, Callback, Transition, transitions, Doxypy, call, on_start, on_comment, comment_part,
  on_part, with_group, make_transition, in_defclass, filehead, defclass_body, append_comment_line,
  reset_comment_search, start_comment_search, init,
}
use aegir_sdr.Doxypy.Table.{taken}
use aegir_sdr.Doxypy.Filter.{run, parse_lines, parse, finish, newline}

abbrev has_group : Condition → Bool
has_group (comment q) = true
has_group (start_comment q) = true
has_group (end_comment q) = true
has_group defclass = true
has_group multiline_defclass_start = true
has_group _ = false

abbrev in_middle : Transition → Bool
in_middle t =
    not (is_state t.from_state in_defclass || is_state t.from_state filehead)
    && not (is_state t.to_state defclass_body || is_state t.to_state filehead)

abbrev needs_no_group : Callback → Transition → Bool
needs_no_group append_comment_line t = in_middle t
needs_no_group reset_comment_search t = false
needs_no_group start_comment_search t = false
needs_no_group _ t = true

abbrev group_there : Transition → Bool
group_there t = has_group t.condition || needs_no_group t.callback t

groups_there : all group_there transitions ≡ true
unfolding transitions is_state
groups_there = refl

check-group :
    (c : Condition) (line : Text) (m : Match)
    → check c line ≡ some m
    → has_group c ≡ true
    → group1 m ≢ none
unfolding check group1
check-group (comment q) line m h g = ground arith
check-group (start_comment q) line m h g = ground arith
check-group (end_comment q) line m h g = ground arith
check-group defclass line m h g = ground arith
check-group multiline_defclass_start line m h g = ground arith
check-group _ line m h g = cc

-- A callback with the group that it reads returns.
call-total :
    (k : Callback) (d : Doxypy) (t : Transition) (m : Match) (line : Text)
    → (needs_no_group k t ≡ true) ⊎ (group1 m ≢ none)
    → call k d t m line ≢ none
unfolding call on_start on_comment comment_part on_part with_group
call-total append_comment_line d t m line h = ground arith
call-total reset_comment_search d t m line h = ground arith
call-total start_comment_search d t m line h = ground arith
call-total _ d t m line h = cc

-- Every line, in every state, is handled with no exception.
pub make_transition-total : (d : Doxypy) (line : Text) → make_transition d line ≢ none
make_transition-total d line e =
    let step = taken group_there groups_there d line in
    call-total step.row.callback _ step.row step.found line
      (group_ready step.row step.found line step.row_has step.condition_met) (sym step.step_is ∙ e)
  where
    group_ready :
        (t : Transition) (m : Match) (line : Text)
        → group_there t ≡ true
        → check t.condition line ≡ some m
        → (needs_no_group t.callback t ≡ true) ⊎ (group1 m ≢ none)
    group_ready t m line h c = elim (Bool-cases (has_group t.condition)) [
      | inl g ↦ inr (check-group t.condition line m c g)
      | inr g ↦ inl (ground arith)
    ]

pub run-total : (d : Doxypy) (lines : List Text) → run d lines ≢ none
unfolding run
run-total d [] e = cc
run-total d (line ∷ lines) e = elim (Option-cases (make_transition d line)) [
  | inl stuck ↦ make_transition-total d line stuck
  | inr (d', step) ↦ run-total d' lines (rw (step, run) at e)
]

ne_none {ℓ} : {A : Type ℓ} (o : Option A) → o ≢ none → (a : A) × (o ≡ some a)
ne_none none h = absurd (h refl)
ne_none (some a) h = (a, refl)

pub run-returns : (d : Doxypy) (lines : List Text) → (e : Doxypy) × (run d lines ≡ some e)
run-returns d lines = ne_none (run d lines) (run-total d lines)

pub parse_lines-finish :
    (autobrief : Bool) (lines : List Text) (d : Doxypy)
    → run (init autobrief) lines ≡ some d
    → parse_lines autobrief lines ≡ some (finish d).output
unfolding parse_lines
parse_lines-finish autobrief lines d ran = rw (ran, parse_lines)

-- `parse` returns a text for every input, with and without `--autobrief`: no callback reads a
-- group that its match lacks.
pub parse-returns :
    (autobrief : Bool) (input : Text) → (out : Text) × (parse autobrief input ≡ some out)
unfolding parse parse_lines
parse-returns autobrief input =
    let (d, ran) = run-returns (init autobrief) (split_on b'\n' input) in
    (join newline (finish d).output, rw (ran, parse, parse_lines))
