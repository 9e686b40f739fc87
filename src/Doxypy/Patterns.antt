-- ===== src/Doxypy/Patterns.antt =====
-- The regular expressions of `Doxypy.__init__`, written out, and what their match objects give.
-- A line has no newline (`input.split("\n")`, `rstrip('\r\n')`), so `^` and `$` are its ends.
use aegir_sdr.Common.{Bool, Option, none, some, [], ◌∷◌, Text, codes, is_space, if◌then◌else◌}
use aegir_sdr.Regex.{Rx, seq, alt, star, matches, dot, space, chr, opt, word, anything}

-- `'''` and `"""`
abbrev pub single_quotes : Text
single_quotes = codes "'''"

abbrev pub double_quotes : Text
double_quotes = codes "\"\"\""

-- `string_prefixes`, `[uU]?[rR]?`
abbrev string_prefixes : Rx
string_prefixes = seq (opt (alt (chr b'u') (chr b'U'))) (opt (alt (chr b'r') (chr b'R')))

-- `^\s*[uU]?[rR]?(''')`, and so for `"""`
abbrev pub start_comment_re : Text → Rx
start_comment_re quotes = seq (star space) (seq string_prefixes (seq (word quotes) anything))

-- `(''')\s*$`
abbrev pub end_comment_re : Text → Rx
end_comment_re quotes = seq anything (seq (word quotes) (star space))

-- `^\s*[uU]?[rR]?(''').*(''')\s*$`
abbrev pub comment_re : Text → Rx
comment_re quotes =
    seq (star space)
      (seq string_prefixes (seq (word quotes) (seq (star dot) (seq (word quotes) (star space)))))

-- `word .+:`, as in `def .+:`
abbrev def_colon : Text → Rx
def_colon w = seq (word w) (seq (chr b' ') (seq dot (seq (star dot) (chr b':'))))

-- `^(\s*)(def .+:|class .+:)`
abbrev pub defclass_re : Rx
defclass_re =
    seq (star space) (seq (alt (def_colon (codes "def")) (def_colon (codes "class"))) anything)

-- `^\s*$`
abbrev pub empty_re : Rx
empty_re = star space

-- `^\s*#.*$`
abbrev pub hashline_re : Rx
hashline_re = seq (star space) (seq (chr b'#') (star dot))

-- `^\s*(import |from .+ import)`
abbrev pub importline_re : Rx
importline_re = seq (star space) (
    seq
      (alt (word (codes "import "))
        (seq (word (codes "from ")) (seq dot (seq (star dot) (word (codes " import"))))))
      anything)

-- `^(\s*)(def|class)(\s.*)?$`
abbrev pub multiline_defclass_start_re : Rx
multiline_defclass_start_re =
    seq (star space)
      (seq (alt (word (codes "def")) (word (codes "class"))) (opt (seq space (star dot))))

-- `:\s*$`
abbrev pub multiline_defclass_end_re : Rx
multiline_defclass_end_re = seq anything (seq (chr b':') (star space))

-- What a condition returns when it is met: a match object, with its first group if the pattern
-- has one, or the `True` of `catchall`.
pub data Match : Type 0 where
  matched : Option Text → Match
  truth : Match

-- `match.group(1)`; `none` is the exception where there is no such group.
unfoldable pub group1 : Match → Option Text
group1 (matched g) = g
group1 truth = none

-- The white space in front of a line, which is what the greedy `(\s*)` of a pattern takes when a
-- character that is no white space has to follow.
unfoldable pub indent_of : Text → Text
indent_of [] = []
indent_of (c ∷ s) = if is_space c then c ∷ indent_of s else []

-- The conditions of the transition table.
pub data Condition : Type 0 where
  comment start_comment end_comment : Text → Condition
  defclass empty hashline importline multiline_defclass_start multiline_defclass_end : Condition
  catchall : Condition

abbrev when : Bool → Match → Option Match
when b m = if b then some m else none

-- The call `condition(input)`: `none` where the code gets `None`.
unfoldable pub check : Condition → Text → Option Match
check (comment quotes) line = when (matches (comment_re quotes) line) (matched (some quotes))
check (start_comment quotes) line =
    when (matches (start_comment_re quotes) line) (matched (some quotes))
check (end_comment quotes) line =
    when (matches (end_comment_re quotes) line) (matched (some quotes))
check defclass line = when (matches defclass_re line) (matched (some (indent_of line)))
check empty line = when (matches empty_re line) (matched none)
check hashline line = when (matches hashline_re line) (matched none)
check importline line = when (matches importline_re line) (matched none)
check multiline_defclass_start line =
    when (matches multiline_defclass_start_re line) (matched (some (indent_of line)))
check multiline_defclass_end line = when (matches multiline_defclass_end_re line) (matched none)
check catchall line = some truth
