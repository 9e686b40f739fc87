-- ===== src/Regex/Lang.antt =====
-- The language of a pattern, and that `matches` decides it.
use aegir_sdr.Common.{
  ℕ, Bool, true, false, [], ◌∷◌, ◌++◌, ◌≡◌, ◌↔◌, ◌⊎◌, inl, inr, refl, ap, sym, Text, arith,
  Bool-cases, ◌∙◌, subst, if◌then◌else◌,
}
use aegir_sdr.Regex.{Rx, never, eps, cls, seq, alt, star, nullable, deriv, matches}

pub data Lang : Rx → Text → Type 0 where
  empty : Lang eps []
  one : {p : ℕ → Bool} (c : ℕ) → p c ≡ true → Lang (cls p) (c ∷ [])
  both : {r q : Rx} {s t u : Text} → Lang r s → Lang q t → u ≡ s ++ t → Lang (seq r q) u
  left : {r q : Rx} {s : Text} → Lang r s → Lang (alt r q) s
  right : {r q : Rx} {s : Text} → Lang q s → Lang (alt r q) s
  stop : {r : Rx} → Lang (star r) []
  more : {r : Rx} {s t u : Text} → Lang r s → Lang (star r) t → u ≡ s ++ t → Lang (star r) u

nullable-Lang : (r : Rx) → nullable r ≡ true → Lang r []
unfolding nullable
nullable-Lang never h = cc
nullable-Lang eps h = empty
nullable-Lang (cls p) h = cc
nullable-Lang (seq r q) h =
    both (nullable-Lang r (ground arith)) (nullable-Lang q (ground arith)) refl
nullable-Lang (alt r q) h = elim (Bool-cases (nullable r)) [
  | inl e ↦ left (nullable-Lang r e)
  | inr e ↦ right (nullable-Lang q (ground arith))
]
nullable-Lang (star r) h = stop

append_nil_split : (s t : Text) → [] ≡ s ++ t → (s ≡ []) × (t ≡ [])
append_nil_split [] t h = (refl, sym h)
append_nil_split (c ∷ s) t h = cc

Lang-nullable : {r : Rx} {s : Text} → Lang r s → s ≡ [] → nullable r ≡ true
unfolding nullable
Lang-nullable empty e = refl
Lang-nullable (one c p) e = cc
Lang-nullable (both {s = s} {t = t} a b h) e =
    let (p, q) = append_nil_split s t (sym e ∙ h) in
    ground (arith, Lang-nullable a p, Lang-nullable b q)
Lang-nullable (left a) e = ground (arith, Lang-nullable a e)
Lang-nullable (right b) e = ground (arith, Lang-nullable b e)
Lang-nullable stop e = refl
Lang-nullable (more a b h) e = refl

never_inv {ℓ} : {A : Type ℓ} {s : Text} → Lang never s → A
never_inv h = elim h [ ]

cls_inv : (b : Bool) {s : Text} → Lang (if b then eps else never) s → (b ≡ true) × (s ≡ [])
cls_inv true empty = (refl, refl)
cls_inv false h = never_inv h

alt_inv : {r q : Rx} {s : Text} → Lang (alt r q) s → Lang r s ⊎ Lang q s
alt_inv (left a) = inl a
alt_inv (right b) = inr b

abbrev Split : Rx → Rx → Text → Type 0
Split r q u = (s : Text) × (t : Text) × Lang r s × Lang q t × (u ≡ s ++ t)

seq_inv : {r q : Rx} {u : Text} → Lang (seq r q) u → Split r q u
seq_inv (both {s = s} {t = t} a b h) = (s, t, a, b, h)

-- What the derivative of a sequence matches, by whether its first part matches the empty text.
seq_deriv_inv :
    (b : Bool) {r d q : Rx} {u : Text}
    → Lang (if b then alt (seq r q) d else seq r q) u
    → Split r q u ⊎ ((b ≡ true) × Lang d u)
seq_deriv_inv true h = elim (alt_inv h) [ inl a ↦ inl (seq_inv a) | inr e ↦ inr (refl, e) ]
seq_deriv_inv false h = inl (seq_inv h)

deriv-Lang : (r : Rx) (c : ℕ) {s : Text} → Lang (deriv c r) s → Lang r (c ∷ s)
unfolding deriv
deriv-Lang never c h = never_inv h
deriv-Lang eps c h = never_inv h
deriv-Lang (cls p) c h =
    let (e, n) = cls_inv (p c) h in subst (λ u. Lang (cls p) (c ∷ u)) (sym n) (one c e)
deriv-Lang (seq r q) c h = elim (seq_deriv_inv (nullable r) h) [
  | inl (s, t, a, b, e) ↦ both (deriv-Lang r c a) b (ap (◌∷◌ c) e)
  | inr (n, d) ↦ both (nullable-Lang r n) (deriv-Lang q c d) refl
]
deriv-Lang (alt r q) c h = elim (alt_inv h) [
  | inl a ↦ left (deriv-Lang r c a)
  | inr b ↦ right (deriv-Lang q c b)
]
deriv-Lang (star r) c h =
    let (s, t, a, b, e) = seq_inv h in more (deriv-Lang r c a) b (ap (◌∷◌ c) e)

seq_deriv :
    (b : Bool) (d : Rx) {r q : Rx} {u : Text}
    → Lang (seq r q) u
    → Lang (if b then alt (seq r q) d else seq r q) u
seq_deriv true d h = left h
seq_deriv false d h = h

cls_deriv : {b : Bool} {s : Text} → b ≡ true → [] ≡ s → Lang (if b then eps else never) s
cls_deriv h e = rw (h, ← e) empty

seq_deriv_skip :
    {b : Bool} (r q : Rx) {d : Rx} {u : Text}
    → b ≡ true
    → Lang d u
    → Lang (if b then alt (seq r q) d else seq r q) u
seq_deriv_skip r q h x = rw h (right x)

append_cons_split :
    (s t : Text) {c : ℕ} {u : Text}
    → c ∷ u ≡ s ++ t
    → ((s ≡ []) × (t ≡ c ∷ u)) ⊎ ((x : Text) × (s ≡ c ∷ x) × (u ≡ x ++ t))
append_cons_split [] t h = inl (refl, sym h)
append_cons_split (x ∷ s) t h = inr (s, cc, cc)

Lang-deriv : {r : Rx} {u : Text} → Lang r u → (c : ℕ) (v : Text) → u ≡ c ∷ v → Lang (deriv c r) v
unfolding deriv
Lang-deriv empty c v e = cc
Lang-deriv (one {p} d pd) c v e = cls_deriv (ap p (cc) ∙ pd) (cc)
Lang-deriv (both {r} {s = s} {t = t} a b h) c v e = elim (append_cons_split s t (sym e ∙ h)) [
  | inl (p, q) ↦ seq_deriv_skip _ _ (Lang-nullable a p) (Lang-deriv b c v q)
  | inr (x, p, q) ↦ seq_deriv (nullable r) _ (both (Lang-deriv a c x p) b q)
]
Lang-deriv (left a) c v e = left (Lang-deriv a c v e)
Lang-deriv (right b) c v e = right (Lang-deriv b c v e)
Lang-deriv stop c v e = cc
Lang-deriv (more {s = s} {t = t} a b h) c v e = elim (append_cons_split s t (sym e ∙ h)) [
  | inl (p, q) ↦ Lang-deriv b c v q
  | inr (x, p, q) ↦ both (Lang-deriv a c x p) b q
]

matches-Lang : (r : Rx) (s : Text) → matches r s ≡ true → Lang r s
unfolding matches
matches-Lang r [] h = nullable-Lang r h
matches-Lang r (c ∷ s) h = deriv-Lang r c (matches-Lang (deriv c r) s h)

Lang-matches : (r : Rx) (s : Text) → Lang r s → matches r s ≡ true
unfolding matches
Lang-matches r [] h = Lang-nullable h refl
Lang-matches r (c ∷ s) h = Lang-matches (deriv c r) s (Lang-deriv h c s refl)

-- `matches` decides the language of the pattern.
pub matches_iff : (r : Rx) (s : Text) → (matches r s ≡ true) ↔ Lang r s
matches_iff r s = (matches-Lang r s, Lang-matches r s)
