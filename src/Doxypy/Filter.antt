-- ===== src/Doxypy/Filter.antt =====
-- `parse`, `parseFile` and `parseLine`: the filter over the lines of a file.
use aegir_sdr.Common.{
  Bool, ◌||◌, Option, none, some, List, [], ◌∷◌, ◌++◌, Text, codes, split_on, join, if◌then◌else◌,
  reverse, ◌==◌,
}
use aegir_sdr.Doxypy.Machine.{Doxypy, is_state, in_defclass, init, close_comment, make_transition}

-- The loop of `parse` over the lines; `none` is an exception.
unfoldable pub run : Doxypy → List Text → Option Doxypy
run d [] = some d
run d (line ∷ lines) = elim (make_transition d line) [ none ↦ none | some e ↦ run e lines ]

-- `if self.fsm.current_state == "DEFCLASS": self.__closeComment()`
unfoldable pub finish : Doxypy → Doxypy
finish d = if is_state d.current_state in_defclass then close_comment d else d

-- The output of `parse` before it is joined.
unfoldable pub parse_lines : Bool → List Text → Option (List Text)
unfolding finish
parse_lines autobrief lines = elim (run (init autobrief) lines) [
  | none ↦ none
  | some d ↦ some (finish d).output
]

abbrev pub newline : Text
newline = codes "\n"

-- `parse`
unfoldable pub parse : Bool → Text → Option Text
parse autobrief input = elim (parse_lines autobrief (split_on b'\n' input)) [
  | none ↦ none
  | some output ↦ some (join newline output)
]

-- `print("\n".join(output))`, if there is any output
unfoldable pub printed : List Text → Text
printed [] = []
printed (x ∷ r) = join newline (x ∷ r) ++ newline

-- `__flushBuffer`: what has been written to `outstream`, and the object with no output left.
unfoldable pub flush : Text × Doxypy → Text × Doxypy
unfolding printed
flush (written, d) = (written ++ printed d.output, record d { output = [] })

-- `line.rstrip('\r\n')`
drop_newlines : Text → Text
drop_newlines [] = []
drop_newlines (c ∷ s) = if c == 13 || c == 10 then drop_newlines s else c ∷ s

unfoldable pub rstrip_newlines : Text → Text
unfolding drop_newlines
rstrip_newlines s = reverse (drop_newlines (reverse s))

-- `parseLine`
unfoldable pub parse_line : Text × Doxypy → Text → Option (Text × Doxypy)
unfolding flush
parse_line (written, d) line = elim (make_transition d line) [
  | none ↦ none
  | some e ↦ some (flush (written, e))
]

-- The loop of `parseFile` over the lines that the open file yields.
unfoldable pub parse_each : Text × Doxypy → List Text → Option (Text × Doxypy)
unfolding parse_line rstrip_newlines
parse_each w [] = some w
parse_each w (line ∷ lines) = elim (parse_line w (rstrip_newlines line)) [
  | none ↦ none
  | some v ↦ parse_each v lines
]

-- `if self.fsm.current_state == "DEFCLASS"` of `parseFile`
unfoldable pub finish_file : Text × Doxypy → Text
unfolding flush
finish_file (written, d) =
    if is_state d.current_state in_defclass then (flush (written, close_comment d)).0 else written

-- `parseFile`: all that is written, for the lines of the file.
unfoldable pub parse_file : Bool → List Text → Option Text
unfolding parse_each finish_file
parse_file autobrief lines = elim (parse_each ([], init autobrief) lines) [
  | none ↦ none
  | some w ↦ some (finish_file w)
]
