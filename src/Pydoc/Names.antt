-- ===== src/Pydoc/Names.antt =====
-- The names of a block and of its make function.
use aegir_sdr.Common.{
  ℕ, Bool, true, false, not, ◌&&◌, Bool-cases, inl, inr, List, [], ◌∷◌, ◌++◌, ◌≡◌, refl, sym, ap,
  ◌∙◌, subst, Text, codes, ◌==◌, ==_iff, all, split_on, join, cons_head,
}
use aegir_sdr.Doxyxml.Base.Lookup.{clash}
use aegir_sdr.Pydoc.{py_name, make_name}

abbrev pub is_bare : Text → Bool
is_bare s = all (λ c. not (c == b'_')) s

bare-head : (c : ℕ) (s : Text) → is_bare (c ∷ s) ≡ true → ((c == b'_') ≡ false) × (is_bare s ≡ true)
bare-head c s bare = elim (Bool-cases (c == b'_')) [
  | inl p ↦ clash (subst (λ b. (not b && is_bare s) ≡ true) p bare)
  | inr p ↦ (p, subst (λ b. (not b && is_bare s) ≡ true) p bare)
]

-- A text is split at its first underscore.
split_on-bare :
    (s rest : Text)
    → is_bare s ≡ true
    → split_on b'_' (s ++ (codes "_" ++ rest)) ≡ s ∷ split_on b'_' rest
unfolding split_on
split_on-bare [] rest bare = refl
split_on-bare (c ∷ s) rest bare =
    let (p, t) = bare-head c s bare in rw (split_on, p) (ap (cons_head c) (split_on-bare s rest t))

join-cons_head :
    (c : ℕ) (ps : List Text) → join (codes "_") (cons_head c ps) ≡ c ∷ join (codes "_") ps
unfolding join
join-cons_head c [] = refl
join-cons_head c (p ∷ []) = refl
join-cons_head c (p ∷ q ∷ ps) = refl

split_on-cons : (s : Text) → (h : Text) × (t : List Text) × (split_on b'_' s ≡ h ∷ t)
unfolding split_on
split_on-cons [] = ([], [], refl)
split_on-cons (c ∷ s) = elim (Bool-cases (c == b'_')) [
  | inl p ↦ ([], split_on b'_' s, rw (split_on, p) refl)
  | inr p ↦ let (h, t, e) = split_on-cons s in (c ∷ h, t, rw (split_on, p, e) refl)
]

join-split_on : (s : Text) → join (codes "_") (split_on b'_' s) ≡ s
unfolding split_on join
join-split_on [] = refl
join-split_on (c ∷ s) = elim (Bool-cases (c == b'_')) [
  | inl p ↦
      let (h, t, e) = split_on-cons s in
      rw (split_on, p, e)
        (rw ((==_iff c b'_').0 p) (ap (◌∷◌ b'_') (ap (join (codes "_")) (sym e) ∙ join-split_on s)))
  | inr p ↦ rw (split_on, p) (join-cons_head c (split_on b'_' s) ∙ ap (◌∷◌ c) (join-split_on s))
]

py_name-bare :
    (prefix rest : Text) → is_bare prefix ≡ true → py_name (prefix ++ (codes "_" ++ rest)) ≡ rest
unfolding py_name
py_name-bare prefix rest bare = rw (py_name, split_on-bare prefix rest bare) (join-split_on rest)

make_name-bare :
    (prefix rest : Text)
    → is_bare prefix ≡ true
    → make_name (prefix ++ (codes "_" ++ rest)) ≡ prefix ++ (codes "_make_" ++ rest)
unfolding make_name
make_name-bare prefix rest bare =
    rw (make_name, split_on-bare prefix rest bare, join-split_on rest) refl

-- For a block `prefix_rest`, whose prefix has no underscore, `make_name` is `prefix_make_rest`, and
-- `py_name` is `rest` for the block and `make_rest` for its make function.
pub make_name-py_name :
    (prefix rest : Text)
    → is_bare prefix ≡ true
    → (make_name (prefix ++ (codes "_" ++ rest)) ≡ prefix ++ (codes "_make_" ++ rest))
      × (py_name (prefix ++ (codes "_" ++ rest)) ≡ rest)
      × (py_name (make_name (prefix ++ (codes "_" ++ rest))) ≡ codes "make_" ++ rest)
make_name-py_name prefix rest bare = (
  make_name-bare prefix rest bare,
  py_name-bare prefix rest bare,
  rw (make_name-bare prefix rest bare) (py_name-bare prefix (codes "make_" ++ rest) bare),
)
