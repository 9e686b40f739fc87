-- ===== src/Common/Strings.antt =====
-- Python's `str` as the list of its code points, with the methods that the sources call.
use Prim.Native.Nat.{ℕ, suc}
use Prim.Native.Char.{code}
use Prim.Native.String.{String}
use mathlib.Core.Path.{◌≡◌}
use mathlib.Core.Logic.{◌↔◌}
use mathlib.Core.Bool.{Bool, true, false, ◌&&◌, ◌||◌}
use mathlib.Core.List.{List, [], ◌∷◌, ◌++◌, reverse}
use mathlib.Core.Option
use mathlib.Core.Option.{Option, none, some}
use native.Mathlib.Omega.{arith}
use aegir_sdr.Common.Tests.{leb, ◌==◌, if◌then◌else◌}
use aegir_sdr.Common.Lists.{take, drop}

abbrev pub Text : Type 0
Text = List ℕ

abbrev pub codes : String → Text
codes String.[] = []
codes (String.◌∷◌ c s) = code c ∷ codes s

-- `==` on texts
unfoldable pub eq_text : Text → Text → Bool
eq_text [] [] = true
eq_text (a ∷ s) (b ∷ t) = a == b && eq_text s t
eq_text _ _ = false

pub eq_text_iff : (s t : Text) → (eq_text s t ≡ true) ↔ (s ≡ t)
unfolding eq_text
eq_text_iff (a ∷ s) (b ∷ t) = ground (arith, eq_text_iff s t)
eq_text_iff _ _ = ground arith

-- `c.isspace()`, which is also what `\s` matches
abbrev pub is_space : ℕ → Bool
is_space c =
    (leb 9 c && leb c 13)
    || (leb 28 c && leb c 32)
    || c == 133
    || c == 160
    || c == 5760
    || (leb 8192 c && leb c 8202)
    || c == 8232
    || c == 8233
    || c == 8239
    || c == 8287
    || c == 12288

-- `s.lstrip()`
unfoldable pub lstrip : Text → Text
lstrip [] = []
lstrip (c ∷ s) = if is_space c then lstrip s else c ∷ s

-- `s.rstrip()`
unfoldable pub rstrip : Text → Text
unfolding lstrip
rstrip s = reverse (lstrip (reverse s))

-- `s.strip()`
unfoldable pub strip : Text → Text
unfolding rstrip
strip s = rstrip (lstrip s)

-- `s.startswith(p)`
unfoldable pub starts_with : Text → Text → Bool
starts_with s [] = true
starts_with [] (p ∷ ps) = false
starts_with (c ∷ s) (p ∷ ps) = c == p && starts_with s ps

-- `s.endswith(p)`
unfoldable pub ends_with : Text → Text → Bool
unfolding starts_with
ends_with s p = starts_with (reverse s) (reverse p)

-- `s.find(p)` for a nonempty `p`, with `none` for -1
unfoldable pub find : Text → Text → Option ℕ
unfolding starts_with
find [] p = none
find (c ∷ s) p = if starts_with (c ∷ s) p then some 0 else Option.map suc (find s p)

-- `s.rfind(p)` for a nonempty `p`, with `none` for -1
unfoldable pub rfind : Text → Text → Option ℕ
unfolding starts_with
rfind [] p = none
rfind (c ∷ s) p = elim (rfind s p) [
  | some i ↦ some (suc i)
  | none ↦ if starts_with (c ∷ s) p then some 0 else none
]

-- `p in s` for a nonempty `p`
unfoldable pub contains : Text → Text → Bool
unfolding find
contains s p = elim (find s p) [ some i ↦ true | none ↦ false ]

-- `s[a:b]` for bounds that are not negative
abbrev pub slice : Text → ℕ → ℕ → Text
slice s a b = drop a (take b s)

-- `sep.join(parts)`
unfoldable pub join : Text → List Text → Text
join sep [] = []
join sep (p ∷ []) = p
join sep (p ∷ q ∷ ps) = p ++ sep ++ join sep (q ∷ ps)

-- `s.replace(c, r)` for one character `c`
unfoldable pub replace : Text → ℕ → Text → Text
replace [] c r = []
replace (x ∷ s) c r = (if x == c then r else x ∷ []) ++ replace s c r

-- The first part, with one more character in front.
abbrev pub cons_head : ℕ → List Text → List Text
cons_head x [] = (x ∷ []) ∷ []
cons_head x (p ∷ ps) = (x ∷ p) ∷ ps

-- `s.split(c)` for one character `c`
unfoldable pub split_on : ℕ → Text → List Text
split_on c [] = [] ∷ []
split_on c (x ∷ s) = if x == c then [] ∷ split_on c s else cons_head x (split_on c s)
