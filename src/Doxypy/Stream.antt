-- ===== src/Doxypy/Stream.antt =====
-- `parseFile` flushes after each line; what it writes in all is the output of the loop of `parse`.
use aegir_sdr.Common.{
  Bool, Option, none, some, List, [], ◌∷◌, ◌++◌, map, ◌≡◌, refl, sym, ap, ◌∙◌, Text, arith, subst,
  append_assoc, append-nil, Bool-cases, Option-cases, some_inj, inl, inr, join,
}
use mathlib.Core.Option
use aegir_sdr.Doxypy.Patterns.{Match, group1}
use aegir_sdr.Doxypy.Machine.{
  State, is_state, defclass_body, in_defclass, Callback, append_comment_line, append_filehead_line,
  append_defclass_line, append_normal_line, reset_comment_search, start_comment_search,
  stop_comment_search, Transition, Doxypy, init, call, on_start, on_comment, with_group,
  CommentPart, single_line, multiline_start, multiline_end, in_multiline, comment_part, on_part,
  single_line_body, start_line_body, end_line_body, append_comment, close_at_body, close_comment,
  dispatch, make_transition,
}
use aegir_sdr.Doxypy.Total.{make_transition-total, run-returns, parse_lines-finish}
use aegir_sdr.Doxypy.Filter.{
  run, finish, parse_lines, newline, printed, flush, rstrip_newlines, parse_each, finish_file,
  parse_file,
}

-- The lines, each with a newline behind it.
unfoldable pub unlines : List Text → Text
unlines [] = []
unlines (x ∷ xs) = x ++ (newline ++ unlines xs)

unlines-append : (xs ys : List Text) → unlines (xs ++ ys) ≡ unlines xs ++ unlines ys
unfolding unlines
unlines-append [] ys = refl
unlines-append (x ∷ xs) ys = simp (unlines-append xs ys, append_assoc)

join-unlines : (x : Text) (xs : List Text) → join newline (x ∷ xs) ++ newline ≡ unlines (x ∷ xs)
unfolding unlines join
join-unlines x [] = refl
join-unlines x (y ∷ ys) =
    append_assoc (x ++ newline) (join newline (y ∷ ys)) newline
    ∙ rw (join-unlines y ys) (append_assoc x newline (unlines (y ∷ ys)))

printed-unlines : (xs : List Text) → printed xs ≡ unlines xs
unfolding printed
printed-unlines [] = unfold unlines in refl
printed-unlines (x ∷ xs) = join-unlines x xs

-- The object with more output in front.
abbrev behind : List Text → Doxypy → Doxypy
behind o d = record d { output = o ++ d.output }

close_comment-behind :
    (o : List Text) (d : Doxypy) → close_comment (behind o d) ≡ behind o (close_comment d)
unfolding close_comment
close_comment-behind o d = simp append_assoc

on_start-behind :
    (o : List Text) (d : Doxypy) (m : Match) (line : Text)
    → on_start (behind o d) m line ≡ Option.map (behind o) (on_start d m line)
unfolding on_start with_group
on_start-behind o d m line = ground arith

close_at_body-behind :
    (o : List Text) (s : State) (d : Doxypy)
    → close_at_body s (behind o d) ≡ behind o (close_at_body s d)
unfolding close_at_body
close_at_body-behind o s d = elim (Bool-cases (is_state s defclass_body)) [
  | inl e ↦ rw (e, close_comment-behind) refl
  | inr e ↦ rw e
]

with_group-behind :
    (o : List Text) (m : Match) (f g : Text → Doxypy)
    → ((x : Text) → f x ≡ behind o (g x))
    → with_group m f ≡ Option.map (behind o) (with_group m g)
unfolding with_group
with_group-behind o m f g h = elim (Option-cases (group1 m)) [
  | inl e ↦ rw (e, with_group)
  | inr (x, e) ↦ rw (e, with_group) (ap some (h x))
]

on_part-behind :
    (p : CommentPart) (o : List Text) (d : Doxypy) (t : Transition) (m : Match) (line : Text)
    → on_part p (behind o d) t m line ≡ Option.map (behind o) (on_part p d t m line)
unfolding on_part append_comment
on_part-behind single_line o d t m line =
    with_group-behind o m _ _
      (λ x. close_at_body-behind o t.to_state (append_comment d (single_line_body line x)))
on_part-behind multiline_start o d t m line =
    with_group-behind o m _ (λ x. append_comment d (start_line_body line x)) (λ x. refl)
on_part-behind multiline_end o d t m line =
    with_group-behind o m _ _
      (λ x. close_at_body-behind o t.to_state (append_comment d (end_line_body line x)))
on_part-behind in_multiline o d t m line = refl

call-behind :
    (k : Callback) (o : List Text) (d : Doxypy) (t : Transition) (m : Match) (line : Text)
    → call k (behind o d) t m line ≡ Option.map (behind o) (call k d t m line)
unfolding call
call-behind append_comment_line o d t m line =
    unfold on_comment in on_part-behind (comment_part t) o d t m line
call-behind append_filehead_line o d t m line = rw close_comment-behind (simp append_assoc)
call-behind append_defclass_line o d t m line = refl
call-behind append_normal_line o d t m line = simp append_assoc
call-behind reset_comment_search o d t m line =
    rw close_comment-behind (on_start-behind o (close_comment d) m line)
call-behind start_comment_search o d t m line = on_start-behind o d m line
call-behind stop_comment_search o d t m line = rw close_comment-behind (simp append_assoc)

dispatch-behind :
    (f : Option (Transition × Match)) (o : List Text) (d : Doxypy) (line : Text)
    → dispatch f (behind o d) line ≡ Option.map (behind o) (dispatch f d line)
unfolding dispatch
dispatch-behind none o d line = refl
dispatch-behind (some (t, m)) o d line = call-behind t.callback o _ t m line

make_transition-behind :
    (o : List Text) (d : Doxypy) (line : Text)
    → make_transition (behind o d) line ≡ Option.map (behind o) (make_transition d line)
unfolding make_transition
make_transition-behind o d line = dispatch-behind _ o d line

run-behind :
    (lines : List Text) (o : List Text) (d e : Doxypy)
    → run d lines ≡ some e
    → run (behind o d) lines ≡ some (behind o e)
unfolding run
run-behind [] o d e h = ap (λ x. some (behind o x)) (some_inj h)
run-behind (line ∷ lines) o d e h = elim (Option-cases (make_transition d line)) [
  | inl stuck ↦ absurd (make_transition-total d line stuck)
  | inr (d', made) ↦
      rw (make_transition-behind o d line ∙ ap (Option.map (behind o)) made, run)
        (run-behind lines o d' e (rw (made, run) at h))
]

-- The object with its output flushed.
abbrev emptied : Doxypy → Doxypy
emptied d = record d { output = [] }

behind-emptied : (d : Doxypy) → behind d.output (emptied d) ≡ d
behind-emptied d = rw append-nil

parse_each-run :
    (lines : List Text) (w : Text) (d e : Doxypy)
    → run (emptied d) (map rstrip_newlines lines) ≡ some e
    → parse_each (w, emptied d) lines ≡ some (w ++ unlines e.output, emptied e)
unfolding run parse_each
parse_each-run [] w d e h =
    subst
      (λ x.
        ◌≡◌ {A = Option (Text × Doxypy)} (some (w, emptied d))
          (some (w ++ unlines x.output, emptied x)))
      (some_inj h) (unfold unlines in rw append-nil)
parse_each-run (line ∷ lines) w d e h =
    elim (Option-cases (make_transition (emptied d) (rstrip_newlines line))) [
      | inl stuck ↦ absurd (make_transition-total (emptied d) (rstrip_newlines line) stuck)
      | inr (d', made) ↦
          let (e', ran) = run-returns (emptied d') (map rstrip_newlines lines) in
          let all_ran = run-behind _ d'.output (emptied d') e' ran in
          let same : behind d'.output e' ≡ e =
            some_inj (sym (rw behind-emptied at all_ran) ∙ rw (made, run) at h) in
          rw (made, parse_each, ← same)
            (parse_each-run lines (w ++ printed d'.output) d' e' ran
              ∙ rw (printed-unlines, unlines-append, append_assoc))
    ]

finish_file-finish :
    (w : Text) (e : Doxypy)
    → finish_file (w ++ unlines e.output, emptied e) ≡ w ++ unlines (finish e).output
unfolding finish_file finish flush
finish_file-finish w e = elim (Bool-cases (is_state e.current_state in_defclass)) [
  | inl searching ↦
      let closed : close_comment e ≡ behind e.output (close_comment (emptied e)) =
        ap close_comment (sym (behind-emptied e)) ∙ close_comment-behind e.output (emptied e) in
      rw searching (
        append_assoc w (unlines e.output) _
        ∙ ap (λ x. w ++ x)
            (ap (λ x. unlines e.output ++ x) (printed-unlines (close_comment (emptied e)).output)
              ∙ sym (unlines-append e.output _)
              ∙ ap (λ x. unlines x.output) (sym closed)))
  | inr other ↦ rw other
]

-- What `parseFile` writes, line by line, is what `parse` gives for the same lines with their ends
-- stripped, each line with a newline behind it.
pub parse_file-eq-parse_lines :
    (autobrief : Bool) (lines out : List Text)
    → parse_lines autobrief (map rstrip_newlines lines) ≡ some out
    → parse_file autobrief lines ≡ some (unlines out)
unfolding parse_file unlines
parse_file-eq-parse_lines autobrief lines out h =
    let (e, ran) = run-returns (init autobrief) (map rstrip_newlines lines) in
    let each = parse_each-run lines [] (init autobrief) e (unfold init in ran) in
    let each' : parse_each ([], init autobrief) lines ≡ some (unlines e.output, emptied e) =
      unfold init in each in
    rw (each', parse_file)
      (ap some (
        finish_file-finish [] e
        ∙ ap unlines (some_inj (sym (parse_lines-finish autobrief _ e ran) ∙ h))))
