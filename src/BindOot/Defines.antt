-- ===== src/BindOot/Defines.antt =====
-- The preprocessor symbols that the generator is given.
use aegir_sdr.Common.{
  ℕ, Bool, true, false, not, ◌&&◌, Bool-cases, inl, inr, none, some, List, [], ◌∷◌, ◌++◌, ◌≡◌, refl,
  ap, ◌∙◌, subst, append_assoc, Text, codes, ◌==◌, all, split_on, join, cons_head,
}
use aegir_sdr.Doxyxml.Base.Lookup.{clash}
use aegir_sdr.BindOot.{Arguments, define_symbols_of, generate}

abbrev pub no_comma : Text → Bool
no_comma s = all (λ c. not (c == b',')) s

no_comma-head :
    (c : ℕ) (s : Text) → no_comma (c ∷ s) ≡ true → ((c == b',') ≡ false) × (no_comma s ≡ true)
no_comma-head c s free = elim (Bool-cases (c == b',')) [
  | inl p ↦ clash (subst (λ b. (not b && no_comma s) ≡ true) p free)
  | inr p ↦ (p, subst (λ b. (not b && no_comma s) ≡ true) p free)
]

split_on-no_comma : (s : Text) → no_comma s ≡ true → split_on b',' s ≡ s ∷ []
unfolding split_on
split_on-no_comma [] free = refl
split_on-no_comma (c ∷ s) free =
    let (p, t) = no_comma-head c s free in
    rw (split_on, p) (ap (cons_head c) (split_on-no_comma s t))

split_on-comma :
    (s rest : Text)
    → no_comma s ≡ true
    → split_on b',' (s ++ (codes "," ++ rest)) ≡ s ∷ split_on b',' rest
unfolding split_on
split_on-comma [] rest free = refl
split_on-comma (c ∷ s) rest free =
    let (p, t) = no_comma-head c s free in
    rw (split_on, p) (ap (cons_head c) (split_on-comma s rest t))

-- Texts without a comma, of which there is at least one.
pub data Symbols : List Text → Type 0 where
  one_symbol : (s : Text) → no_comma s ≡ true → Symbols (s ∷ [])
  more_symbols : (s : Text) {ss : List Text} → no_comma s ≡ true → Symbols ss → Symbols (s ∷ ss)

define_symbols_of-Symbols : (ss : List Text) → Symbols ss → define_symbols_of ss ≡ ss
unfolding define_symbols_of join
define_symbols_of-Symbols [] none_given = elim none_given [ ]
define_symbols_of-Symbols (s ∷ []) (one_symbol _ free) = split_on-no_comma s free
define_symbols_of-Symbols (s ∷ []) (more_symbols _ free rest) = split_on-no_comma s free
define_symbols_of-Symbols (s ∷ t ∷ ss) (more_symbols _ free rest) = rw append_assoc (
    split_on-comma s (join (codes ",") (t ∷ ss)) free
    ∙ ap (◌∷◌ s) (define_symbols_of-Symbols (t ∷ ss) rest))

define_symbols_of-empty : define_symbols_of [] ≡ [] ∷ []
unfolding define_symbols_of split_on join
define_symbols_of-empty = refl

-- Symbols that have no comma, of which at least one is given, reach the generator as they are; and a
-- program that is given none passes one empty symbol.
pub generate-define_symbols :
    (temp : Text) (args : Arguments) (ss : List Text)
    → args.defines ≡ some ss
    → Symbols ss
    → ((generate temp args).define_symbols ≡ ss)
      × ((generate temp (record args { defines = none })).define_symbols ≡ [] ∷ [])
unfolding generate
generate-define_symbols temp args ss at symbols =
    (rw at (define_symbols_of-Symbols ss symbols), define_symbols_of-empty)
