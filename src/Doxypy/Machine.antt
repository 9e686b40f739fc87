-- ===== src/Doxypy/Machine.antt =====
-- The classes `FSM` and `Doxypy`: the transition table, the callbacks, and `makeTransition`.
-- An exception in a callback is `none`. The `--debug` traces on stderr are left out.
use aegir_sdr.Common.{
  ℕ, Bool, true, false, not, ◌&&◌, ◌||◌, ◌+◌, ◌-◌, Option, none, some, List, [], ◌∷◌, ◌++◌, map,
  Text, codes, ◌==◌, if◌then◌else◌, eq_text, strip, find, rfind, slice, drop, length,
}
use aegir_sdr.Doxypy.Patterns.{
  Match, group1, Condition, comment, start_comment, end_comment, defclass, empty, hashline,
  importline, multiline_defclass_start, multiline_defclass_end, catchall, check, single_quotes,
  double_quotes,
}

pub data State : Type 0 where
  filehead filehead_comment_single filehead_comment_double : State
  in_defclass comment_single comment_double defclass_body defclass_multi : State

state_code : State → ℕ
state_code filehead = 0
state_code filehead_comment_single = 1
state_code filehead_comment_double = 2
state_code in_defclass = 3
state_code comment_single = 4
state_code comment_double = 5
state_code defclass_body = 6
state_code defclass_multi = 7

-- `==` on the states' names
unfoldable pub is_state : State → State → Bool
unfolding state_code
is_state s t = state_code s == state_code t

pub data Callback : Type 0 where
  append_comment_line append_filehead_line append_defclass_line append_normal_line : Callback
  reset_comment_search start_comment_search stop_comment_search : Callback

pub record Transition : Type 0 where
  pub from_state : State
  pub to_state : State
  pub condition : Condition
  pub callback : Callback

abbrev pub row : State → State → Condition → Callback → Transition
row a b c k = record { from_state = a; to_state = b; condition = c; callback = k }

-- The list `transitions`, in the order of the source.
unfoldable pub transitions : List Transition
transitions =
    row filehead filehead (comment single_quotes) append_comment_line
    ∷ row filehead filehead (comment double_quotes) append_comment_line
    ∷ row filehead filehead_comment_single (start_comment single_quotes) append_comment_line
    ∷ row filehead_comment_single filehead (end_comment single_quotes) append_comment_line
    ∷ row filehead_comment_single filehead_comment_single catchall append_comment_line
    ∷ row filehead filehead_comment_double (start_comment double_quotes) append_comment_line
    ∷ row filehead_comment_double filehead (end_comment double_quotes) append_comment_line
    ∷ row filehead_comment_double filehead_comment_double catchall append_comment_line
    ∷ row filehead filehead empty append_filehead_line
    ∷ row filehead filehead hashline append_filehead_line
    ∷ row filehead filehead importline append_filehead_line
    ∷ row filehead in_defclass defclass reset_comment_search
    ∷ row filehead defclass_multi multiline_defclass_start reset_comment_search
    ∷ row filehead defclass_body catchall append_filehead_line
    ∷ row in_defclass defclass_body (comment single_quotes) append_comment_line
    ∷ row in_defclass defclass_body (comment double_quotes) append_comment_line
    ∷ row in_defclass comment_single (start_comment single_quotes) append_comment_line
    ∷ row comment_single defclass_body (end_comment single_quotes) append_comment_line
    ∷ row comment_single comment_single catchall append_comment_line
    ∷ row in_defclass comment_double (start_comment double_quotes) append_comment_line
    ∷ row comment_double defclass_body (end_comment double_quotes) append_comment_line
    ∷ row comment_double comment_double catchall append_comment_line
    ∷ row in_defclass in_defclass empty append_defclass_line
    ∷ row in_defclass in_defclass defclass reset_comment_search
    ∷ row in_defclass defclass_multi multiline_defclass_start reset_comment_search
    ∷ row in_defclass defclass_body catchall stop_comment_search
    ∷ row defclass_body in_defclass defclass start_comment_search
    ∷ row defclass_body defclass_multi multiline_defclass_start start_comment_search
    ∷ row defclass_body defclass_body catchall append_normal_line
    ∷ row defclass_multi in_defclass multiline_defclass_end append_defclass_line
    ∷ row defclass_multi defclass_multi catchall append_defclass_line
    ∷ []

-- The fields of a `Doxypy` object, with those of its `fsm`. `autobrief` is `args.autobrief`.
-- (The attribute `filehead` is never used, and `current_input` and `current_transition` are only
-- read by the callback of the transition that has set them, so that they are its arguments.)
pub record Doxypy : Type 0 where
  pub autobrief : Bool
  pub current_state : State
  pub output : List Text
  pub comment_lines : List Text
  pub defclass_lines : List Text
  pub indent : Text

-- `Doxypy()`
unfoldable pub init : Bool → Doxypy
init autobrief = record {
  autobrief = autobrief;
  current_state = filehead;
  output = [];
  comment_lines = [];
  defclass_lines = [];
  indent = [];
}

-- `stripped and not stripped[0] in ('@', '\\')`
wants_brief : Text → Bool
wants_brief [] = false
wants_brief (c ∷ s) = not (c == b'@' || c == b'\\')

-- `__docstringSummaryToBrief`
unfoldable pub docstring_summary_to_brief : Text → Text
unfolding wants_brief strip
docstring_summary_to_brief line =
    if wants_brief (strip line) then codes "\\brief " ++ line else line

is_blank : Text → Bool
is_blank s = eq_text (strip s) []

-- The first part of `__closeComment`: what `args.autobrief` does to `self.comment`.
unfoldable pub brief_comment : Bool → List Text → List Text
unfolding docstring_summary_to_brief is_blank strip eq_text
brief_comment false c = c
brief_comment true [] = []
brief_comment true (x ∷ []) = docstring_summary_to_brief x ∷ []
brief_comment true (x ∷ y ∷ []) = x ∷ y ∷ []
brief_comment true (x ∷ y ∷ z ∷ r) =
    (if is_blank y then docstring_summary_to_brief x else x) ∷ y ∷ z ∷ r

-- `makeCommentBlock`, at the indentation and the lines of the comment
unfoldable pub make_comment_block : Text → List Text → List Text
make_comment_block indent lines =
    (indent ++ codes "##") ∷ map (λ x. indent ++ codes "# " ++ x) lines

-- What `if self.comment:` adds to the output.
unfoldable pub comment_block : Text → List Text → List Text
unfolding make_comment_block
comment_block indent [] = []
comment_block indent (x ∷ r) = make_comment_block indent (x ∷ r)

-- `__closeComment`
unfoldable pub close_comment : Doxypy → Doxypy
close_comment d =
    let c = brief_comment d.autobrief d.comment_lines in
    record d {
      comment_lines = c;
      output = d.output ++ comment_block d.indent c ++ d.defclass_lines;
    }

-- `line.find(delim) + len(delim)` and `line.rfind(delim)`, where -1 stands for the end but one.
after_delim : Text → Text → ℕ
unfolding find
after_delim line delim = elim (find line delim) [
  | some i ↦ i + length delim
  | none ↦ length delim - 1
]

before_delim : Text → Text → ℕ
unfolding rfind
before_delim line delim = elim (rfind line delim) [ some i ↦ i | none ↦ length line - 1 ]

unfoldable pub append_comment : Doxypy → Text → Doxypy
append_comment d x = record d { comment_lines = d.comment_lines ++ x ∷ [] }

-- `if (to_state == "DEFCLASS_BODY")` of `appendCommentLine`
unfoldable pub close_at_body : State → Doxypy → Doxypy
close_at_body to d =
    if is_state to defclass_body then record (close_comment d) { defclass_lines = [] } else d

-- The three branches of `appendCommentLine` that read `match.group(1)`.
unfoldable pub single_line_body : Text → Text → Text
unfolding after_delim before_delim
single_line_body line delim = slice line (after_delim line delim) (before_delim line delim)

unfoldable pub start_line_body : Text → Text → Text
unfolding after_delim
start_line_body line delim = drop (after_delim line delim) line

unfoldable pub end_line_body : Text → Text → Text
unfolding before_delim
end_line_body line delim = slice line 0 (before_delim line delim)

-- `activeCommentDelim = match.group(1)`, and what is done with it
unfoldable pub with_group : Match → (Text → Doxypy) → Option Doxypy
with_group m f = elim (group1 m) [ none ↦ none | some delim ↦ some (f delim) ]

-- `startCommentSearch`
unfoldable pub on_start : Doxypy → Match → Text → Option Doxypy
on_start d m line =
    with_group m (λ g. record d { defclass_lines = line ∷ []; comment_lines = []; indent = g })

-- The four branches of `appendCommentLine`, and the tests that choose one.
pub data CommentPart : Type 0 where
  single_line multiline_start multiline_end in_multiline : CommentPart

unfoldable pub comment_part : Transition → CommentPart
comment_part t =
    if (is_state t.from_state in_defclass && is_state t.to_state defclass_body)
      || (is_state t.from_state filehead && is_state t.to_state filehead)
    then single_line
    else if is_state t.from_state in_defclass || is_state t.from_state filehead
    then multiline_start
    else if is_state t.to_state defclass_body || is_state t.to_state filehead
    then multiline_end
    else in_multiline

-- `appendCommentLine`, in a branch
unfoldable pub on_part : CommentPart → Doxypy → Transition → Match → Text → Option Doxypy
on_part single_line d t m line =
    with_group m
      (λ delim. close_at_body t.to_state (append_comment d (single_line_body line delim)))
on_part multiline_start d t m line =
    with_group m (λ delim. append_comment d (start_line_body line delim))
on_part multiline_end d t m line =
    with_group m (λ delim. close_at_body t.to_state (append_comment d (end_line_body line delim)))
on_part in_multiline d t m line = some (append_comment d line)

-- `appendCommentLine`
unfoldable pub on_comment : Doxypy → Transition → Match → Text → Option Doxypy
on_comment d t m line = on_part (comment_part t) d t m line

-- `callback(match)`
unfoldable pub call : Callback → Doxypy → Transition → Match → Text → Option Doxypy
call append_comment_line d t m line = on_comment d t m line
call append_filehead_line d t m line =
    let e = close_comment d in
    some (record e { comment_lines = []; output = e.output ++ line ∷ [] })
call append_defclass_line d t m line =
    some (record d { defclass_lines = d.defclass_lines ++ line ∷ [] })
call append_normal_line d t m line = some (record d { output = d.output ++ line ∷ [] })
call reset_comment_search d t m line = on_start (close_comment d) m line
call start_comment_search d t m line = on_start d m line
call stop_comment_search d t m line =
    let e = close_comment d in
    some (record e { defclass_lines = []; output = e.output ++ line ∷ [] })

-- What the loop of `makeTransition` finds: the first transition from the current state whose
-- condition the line meets, with the match.
unfoldable pub attempt : State → Text → Transition → Option Match
attempt s line t = if is_state t.from_state s then check t.condition line else none

unfoldable pub select : State → Text → List Transition → Option (Transition × Match)
select s line [] = none
select s line (t ∷ ts) = elim (attempt s line t) [ some m ↦ some (t, m) | none ↦ select s line ts ]

-- The body of the loop at what was found; with no transition found the line is dropped.
unfoldable pub dispatch : Option (Transition × Match) → Doxypy → Text → Option Doxypy
dispatch none d line = some d
dispatch (some (t, m)) d line = call t.callback (record d { current_state = t.to_state }) t m line

-- `makeTransition`
unfoldable pub make_transition : Doxypy → Text → Option Doxypy
make_transition d line = dispatch (select d.current_state line transitions) d line
