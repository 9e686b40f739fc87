-- ===== src/Regex.antt =====
-- What the sources use of Python's `re`: a pattern with no group, and whether it matches a whole
-- text, which is `re.search` of the pattern behind `^` and before `$`. The families of the lines
-- that a pattern matches stand in `Lang`; `matches` decides them by derivatives.
pub mod Lang
use aegir_sdr.Common.{
  ℕ, Bool, true, false, ◌&&◌, ◌||◌, List, [], ◌∷◌, Text, ◌==◌, not, is_space, if◌then◌else◌,
}

pub data Rx : Type 0 where
  never eps : Rx
  cls : (ℕ → Bool) → Rx
  seq alt : Rx → Rx → Rx
  star : Rx → Rx

unfoldable pub nullable : Rx → Bool
nullable never = false
nullable eps = true
nullable (cls p) = false
nullable (seq r q) = nullable r && nullable q
nullable (alt r q) = nullable r || nullable q
nullable (star r) = true

unfoldable pub deriv : ℕ → Rx → Rx
unfolding nullable
deriv c never = never
deriv c eps = never
deriv c (cls p) = if p c then eps else never
deriv c (seq r q) = if nullable r then alt (seq (deriv c r) q) (deriv c q) else seq (deriv c r) q
deriv c (alt r q) = alt (deriv c r) (deriv c q)
deriv c (star r) = seq (deriv c r) (star r)

unfoldable pub matches : Rx → Text → Bool
unfolding nullable deriv
matches r [] = nullable r
matches r (c ∷ s) = matches (deriv c r) s

-- `.`, which is any character but a newline
abbrev pub dot : Rx
dot = cls (λ c. not (c == 10))

-- `\s`
abbrev pub space : Rx
space = cls is_space

abbrev pub chr : ℕ → Rx
chr a = cls (λ c. c == a)

-- `r?`
abbrev pub opt : Rx → Rx
opt r = alt r eps

-- A word, character by character.
abbrev pub word : Text → Rx
word [] = eps
word (c ∷ s) = seq (chr c) (word s)

-- What `re.search` lets stand behind a pattern with no `$`.
abbrev pub anything : Rx
anything = star (cls (λ c. true))
