-- ===== src/Doxypy/Docstring.antt =====
-- Where the docstring of a class or function goes, and what is lost at the end of a file.
use aegir_sdr.Common.{
  Option, none, some, List, [], ◌∷◌, ◌++◌, ◌≡◌, refl, ap, ◌∙◌, Text, arith, append_assoc,
  append-nil,
}
use aegir_sdr.Doxypy.Patterns.{
  Match, matched, truth, group1, Condition, comment, start_comment, end_comment,
  multiline_defclass_end, catchall, check, single_quotes, double_quotes,
}
use aegir_sdr.Doxypy.Machine.{
  State, is_state, in_defclass, comment_single, comment_double, defclass_body, defclass_multi,
  append_comment_line, append_defclass_line, Transition, transitions, attempt, select, Doxypy, call,
  on_comment, comment_part, on_part, with_group, append_comment, close_at_body, close_comment,
  dispatch, make_transition, comment_block, brief_comment, start_line_body, end_line_body, row,
}
use aegir_sdr.Doxypy.Filter.{run, finish}

-- The two delimiters.
pub data Quotes : Type 0 where
  single double : Quotes

abbrev pub quotes : Quotes → Text
quotes single = single_quotes
quotes double = double_quotes

abbrev inside : Quotes → State
inside single = comment_single
inside double = comment_double

abbrev pub Fails : Condition → Text → Type 0
Fails c line = check c line ≡ none

abbrev pub Meets : Text → Condition → Text → Type 0
Meets g c line = check c line ≡ some (matched (some g))

-- The line opens a docstring with these quotes and does not close it.
abbrev pub Opens : Quotes → Text → Type 0
Opens single line =
    Fails (comment single_quotes) line
    × Fails (comment double_quotes) line
    × Meets single_quotes (start_comment single_quotes) line
Opens double line =
    Fails (comment single_quotes) line
    × Fails (comment double_quotes) line
    × Fails (start_comment single_quotes) line
    × Meets double_quotes (start_comment double_quotes) line

abbrev pub Ends : Quotes → Text → Type 0
Ends q line = Meets (quotes q) (end_comment (quotes q)) line

abbrev pub GoesOn : Quotes → Text → Type 0
GoesOn q line = Fails (end_comment (quotes q)) line

check_catchall : (line : Text) → check catchall line ≡ some truth
unfolding check
check_catchall line = refl

select-Opens :
    (q : Quotes) (line : Text)
    → Opens q line
    → select in_defclass line transitions
      ≡ some (
        row in_defclass (inside q) (start_comment (quotes q)) append_comment_line,
        matched (some (quotes q)),
      )
unfolding attempt select transitions is_state
select-Opens single line h = ground arith
select-Opens double line h = ground arith

select-GoesOn :
    (q : Quotes) (line : Text)
    → GoesOn q line
    → select (inside q) line transitions
      ≡ some (row (inside q) (inside q) catchall append_comment_line, truth)
unfolding attempt select transitions is_state
select-GoesOn single line h = ground (arith, check_catchall line)
select-GoesOn double line h = ground (arith, check_catchall line)

select-Ends :
    (q : Quotes) (line : Text)
    → Ends q line
    → select (inside q) line transitions
      ≡ some (
        row (inside q) defclass_body (end_comment (quotes q)) append_comment_line,
        matched (some (quotes q)),
      )
unfolding attempt select transitions is_state
select-Ends single line h = ground arith
select-Ends double line h = ground arith

step_by :
    {s : State} {o : Option (Transition × Match)} (d : Doxypy) (line : Text)
    → d.current_state ≡ s
    → select s line transitions ≡ o
    → make_transition d line ≡ dispatch o d line
unfolding make_transition
step_by d line at found =
    ap (λ s. dispatch (select s line transitions) d line) at ∙ ap (λ o. dispatch o d line) found

step-Opens :
    (q : Quotes) (d : Doxypy) (line : Text)
    → d.current_state ≡ in_defclass
    → Opens q line
    → make_transition d line
      ≡ some (record d {
        current_state = inside q;
        comment_lines = d.comment_lines ++ start_line_body line (quotes q) ∷ [];
      })
unfolding dispatch call on_comment comment_part on_part with_group append_comment is_state group1
step-Opens single d line at h = step_by d line at (select-Opens single line h)
step-Opens double d line at h = step_by d line at (select-Opens double line h)

step-GoesOn :
    (q : Quotes) (d : Doxypy) (line : Text)
    → d.current_state ≡ inside q
    → GoesOn q line
    → make_transition d line
      ≡ some (record d { current_state = inside q; comment_lines = d.comment_lines ++ line ∷ [] })
unfolding dispatch call on_comment comment_part on_part append_comment is_state
step-GoesOn single d line at h = step_by d line at (select-GoesOn single line h)
step-GoesOn double d line at h = step_by d line at (select-GoesOn double line h)

-- The object once a docstring has ended, with the lines of its comment.
abbrev pub closed_with : List Text → Doxypy → Doxypy
closed_with lines d =
    let c = brief_comment d.autobrief lines in
    record d {
      current_state = defclass_body;
      comment_lines = c;
      output = d.output ++ comment_block d.indent c ++ d.defclass_lines;
      defclass_lines = [];
    }

step-Ends :
    (q : Quotes) (d : Doxypy) (line : Text)
    → d.current_state ≡ inside q
    → Ends q line
    → make_transition d line
      ≡ some (closed_with (d.comment_lines ++ end_line_body line (quotes q) ∷ []) d)
unfolding dispatch call on_comment comment_part on_part with_group append_comment close_at_body
    close_comment is_state group1
step-Ends single d line at h = step_by d line at (select-Ends single line h)
step-Ends double d line at h = step_by d line at (select-Ends double line h)

abbrev pub All : (Text → Type 0) → List Text → Type 0
All P [] = Unit
All P (x ∷ xs) = P x × All P xs

run-GoesOn :
    (q : Quotes) (lines rest : List Text) (d : Doxypy)
    → d.current_state ≡ inside q
    → All (GoesOn q) lines
    → run d (lines ++ rest)
      ≡ run (record d { current_state = inside q; comment_lines = d.comment_lines ++ lines }) rest
unfolding run
run-GoesOn q [] rest d at h = rw append-nil (ap (λ x. run (record d { current_state = x }) rest) at)
run-GoesOn q (line ∷ lines) rest d at h =
    rw (step-GoesOn q d line at h.0, run)
      (run-GoesOn q lines rest
          (record d { current_state = inside q; comment_lines = d.comment_lines ++ line ∷ [] }) refl
          h.1
        ∙ rw append_assoc)

-- A docstring over several lines, behind the header of its class or function, is written as one
-- comment block in front of that header, without its quotes and with its other lines unchanged
-- but for what `--autobrief` does; nothing of it is left waiting.
pub docstring_moves :
    (q : Quotes) (d : Doxypy) (first last : Text) (middle rest : List Text)
    → d.current_state ≡ in_defclass
    → d.comment_lines ≡ []
    → Opens q first
    → All (GoesOn q) middle
    → Ends q last
    → run d (first ∷ (middle ++ (last ∷ rest)))
      ≡ run
          (closed_with
            (start_line_body first (quotes q) ∷ (middle ++ (end_line_body last (quotes q) ∷ [])))
            d)
          rest
unfolding run
docstring_moves q d first last middle rest at fresh opens goes_on ends =
    rw (step-Opens q d first at opens, run)
      (run-GoesOn q middle (last ∷ rest)
          (record d {
            current_state = inside q;
            comment_lines = d.comment_lines ++ start_line_body first (quotes q) ∷ [];
          })
          refl goes_on
        ∙ rw
            (
              step-Ends q
                  (record d {
                    current_state = inside q;
                    comment_lines =
                        d.comment_lines ++ start_line_body first (quotes q) ∷ [] ++ middle;
                  })
                  last refl ends,
              run,
            )
            (ap (λ ls. run (closed_with ls d) rest) (rw fresh)))

-- A line of a header that runs over several lines and does not end in a colon.
abbrev pub NoColon : Text → Type 0
NoColon line = Fails multiline_defclass_end line

step-NoColon :
    (d : Doxypy) (line : Text)
    → d.current_state ≡ defclass_multi
    → NoColon line
    → make_transition d line
      ≡ some (record d {
        current_state = defclass_multi;
        defclass_lines = d.defclass_lines ++ line ∷ [];
      })
unfolding dispatch call attempt select transitions is_state
step-NoColon d line at h =
    step_by {o = some (row defclass_multi defclass_multi catchall append_defclass_line, truth)} d
      line at (ground (arith, check_catchall line))

run-NoColon :
    (lines : List Text) (d : Doxypy)
    → d.current_state ≡ defclass_multi
    → All NoColon lines
    → run d lines
      ≡ some
          (record d { current_state = defclass_multi; defclass_lines = d.defclass_lines ++ lines })
unfolding run
run-NoColon [] d at h = rw append-nil (ap (λ x. some (record d { current_state = x })) at)
run-NoColon (line ∷ lines) d at h =
    rw (step-NoColon d line at h.0, run)
      (run-NoColon lines
          (record d {
            current_state = defclass_multi;
            defclass_lines = d.defclass_lines ++ line ∷ [];
          })
          refl h.1
        ∙ rw append_assoc)

-- Once a header over several lines is open, a rest of the file in which no line ends in a colon,
-- as with a comment behind the colon, is not written at all, nor is the header.
pub open_header_lost :
    (d : Doxypy) (lines : List Text)
    → d.current_state ≡ defclass_multi
    → All NoColon lines
    → (e : Doxypy) × (run d lines ≡ some e) × ((finish e).output ≡ d.output)
unfolding finish is_state
open_header_lost d lines at h = (
  record d { current_state = defclass_multi; defclass_lines = d.defclass_lines ++ lines },
  run-NoColon lines d at h,
  refl,
)
