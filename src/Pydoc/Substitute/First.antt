-- ===== src/Pydoc/Substitute/First.antt =====
-- The first match in a header file, said without the search.
use aegir_sdr.Common.{
  ℕ, ◌≤◌, true, not, ◌&&◌, Bool-cases, Option, Option-cases, none, some, inl, inr, ◌⊎◌, [], ◌∷◌,
  ◌++◌, ◌≡◌, refl, sym, ap, ◌∙◌, subst, append_assoc, Text, codes, length, drop, drop-append, all,
  starts_with, is_space, ◌==◌, ==_iff, arith, if◌then◌else◌,
}
use aegir_sdr.Doxyxml.Base.Lookup.{clash}
use aegir_sdr.Doxyxml.Description.Breaks.{&&-left, &&-right}
use aegir_sdr.Pydoc.Substitute.{
  Match, closing, span_body, close_match, open_match, head_of, match_at, push, first_match,
}

-- A match of a text: its parts make up the text, the first group is the name, white space and the start of
-- a raw literal, and the literal has no closing parenthesis.
pub record IsMatch (doc_key file : Text) (m : Match) : Type 0 where
  pub space : ℕ
  pub is_blank : is_space space ≡ true
  pub is_opening : m.opening ≡ head_of doc_key ++ space ∷ codes "R\"doc("
  pub is_body : all (λ c. not (c == b')')) m.body ≡ true
  pub is_whole : file ≡ m.before ++ (m.opening ++ (m.body ++ (closing ++ m.after)))

-- No match begins in front of the first; and there is none where none is found.
abbrev pub IsFirst : Text → Text → Option Match → Type 0
IsFirst doc_key file none = (m : Match) → ¬ IsMatch doc_key file m
IsFirst doc_key file (some f) =
    IsMatch doc_key file f
    × ((m : Match) → IsMatch doc_key file m → length f.before ≤ length m.before)

starts_with-append : (p s : Text) → starts_with (p ++ s) p ≡ true
unfolding starts_with
starts_with-append [] s = refl
starts_with-append (c ∷ p) s = ground (arith, starts_with-append p s)

starts_with-drop : (s p : Text) → starts_with s p ≡ true → s ≡ p ++ drop (length p) s
unfolding starts_with
starts_with-drop s [] h = refl
starts_with-drop [] (p ∷ ps) h = ground arith
starts_with-drop (c ∷ s) (p ∷ ps) h = elim (Bool-cases (c == p)) [
  | inl e ↦
      ap (λ x. x ∷ s) ((==_iff c p).0 e)
      ∙ ap (◌∷◌ p) (starts_with-drop s ps (subst (λ b. b && starts_with s ps ≡ true) e h))
  | inr e ↦ clash (subst (λ b. b && starts_with s ps ≡ true) e h)
]

span_body-whole : (s : Text) → s ≡ (span_body s).0 ++ (span_body s).1
span_body-whole [] = refl
span_body-whole (c ∷ s) = elim (Bool-cases (c == b')')) [
  | inl e ↦ rw e
  | inr e ↦ rw e (ap (◌∷◌ c) (span_body-whole s))
]

span_body-open : (s : Text) → all (λ c. not (c == b')')) (span_body s).0 ≡ true
span_body-open [] = refl
span_body-open (c ∷ s) = elim (Bool-cases (c == b')')) [
  | inl e ↦ rw e
  | inr e ↦ rw e (rw e (span_body-open s))
]

span_body-closed :
    (b s : Text) → all (λ c. not (c == b')')) b ≡ true → span_body (b ++ (b')' ∷ s)) ≡ (b, b')' ∷ s)
span_body-closed [] s h = refl
span_body-closed (c ∷ b) s h = elim (Bool-cases (c == b')')) [
  | inl e ↦ clash (subst (λ x. not x && all (λ c. not (c == b')')) b ≡ true) e h)
  | inr e ↦
      rw (e, span_body-closed b s (subst (λ x. not x && all (λ c. not (c == b')')) b ≡ true) e h))
        refl
]

-- A literal that is closed is a match, and what is a match is a literal that is closed.
close_match-some :
    (opening body after : Text)
    → close_match opening (body, closing ++ after)
      ≡ some (record { before = []; opening = opening; body = body; after = after })
close_match-some opening body after =
    rw (starts_with-append closing after, drop-append closing after) refl

match_at-here :
    (doc_key : Text) (sp : ℕ) (body after : Text)
    → is_space sp ≡ true
    → all (λ c. not (c == b')')) body ≡ true
    → match_at doc_key (head_of doc_key ++ (sp ∷ (codes "R\"doc(" ++ (body ++ (closing ++ after)))))
      ≡ some (record {
        before = [];
        opening = head_of doc_key ++ sp ∷ codes "R\"doc(";
        body = body;
        after = after;
      })
unfolding match_at
match_at-here doc_key sp body after blank unclosed =
    rw
      (
        starts_with-append (head_of doc_key)
            (sp ∷ (codes "R\"doc(" ++ (body ++ (closing ++ after)))),
        drop-append (head_of doc_key) (sp ∷ (codes "R\"doc(" ++ (body ++ (closing ++ after)))),
        match_at,
        blank,
        starts_with-append (codes "R\"doc(") (body ++ (closing ++ after)),
      )
      (ap (close_match (head_of doc_key ++ sp ∷ codes "R\"doc("))
          (span_body-closed body (codes "doc\"" ++ after) unclosed)
        ∙ close_match-some (head_of doc_key ++ sp ∷ codes "R\"doc(") body after)

match_at-some :
    (doc_key s : Text) (m : Match)
    → IsMatch doc_key s m
    → m.before ≡ []
    → (f : Match) × (match_at doc_key s ≡ some f)
match_at-some doc_key s m is here = (
  _,
  ap (match_at doc_key) (
        is.is_whole
        ∙ ap (λ b. b ++ (m.opening ++ (m.body ++ (closing ++ m.after)))) here
        ∙ ap (λ o. o ++ (m.body ++ (closing ++ m.after))) is.is_opening
        ∙ append_assoc (head_of doc_key) (is.space ∷ codes "R\"doc(")
            (m.body ++ (closing ++ m.after)))
      ∙ match_at-here doc_key is.space m.body m.after is.is_blank is.is_body,
)

-- A match at the start of a text
abbrev Starts : Text → Text → Match → Type 0
Starts doc_key s m = IsMatch doc_key s m × (m.before ≡ [])

none_given : {A : Type 0} {m : Match} → none ≡ some m → A
none_given p = ground arith

some_inj : (a b : Match) → some a ≡ some b → a ≡ b
some_inj a b p = ap (λ o. elim o [ none ↦ a | some x ↦ x ]) p

close_match-Starts :
    (doc_key : Text) (sp : ℕ) (s : Text) (m : Match)
    → is_space sp ≡ true
    → close_match (head_of doc_key ++ sp ∷ codes "R\"doc(") (span_body s) ≡ some m
    → Starts doc_key (head_of doc_key ++ (sp ∷ (codes "R\"doc(" ++ s))) m
close_match-Starts doc_key sp s m blank found =
    elim (Bool-cases (starts_with (span_body s).1 closing)) [
      | inl e ↦
          let f : Match = record {
            before = [];
            opening = head_of doc_key ++ sp ∷ codes "R\"doc(";
            body = (span_body s).0;
            after = drop (length closing) (span_body s).1;
          } in
          subst (Starts doc_key (head_of doc_key ++ (sp ∷ (codes "R\"doc(" ++ s))))
            (some_inj f m (ap (λ b. if b then some f else none) (sym e) ∙ found))
            (
              record {
                space = sp;
                is_blank = blank;
                is_opening = refl;
                is_body = span_body-open s;
                is_whole =
                    ap (λ t. head_of doc_key ++ (sp ∷ (codes "R\"doc(" ++ t)))
                      (span_body-whole s
                        ∙ ap (λ t. (span_body s).0 ++ t) (starts_with-drop _ closing e))
                    ∙ sym (append_assoc (head_of doc_key) (sp ∷ codes "R\"doc(") _);
              },
              refl,
            )
      | inr e ↦ none_given (
          sym (
            ap
              (λ b.
                if b
                then some (record {
                  before = [];
                  opening = head_of doc_key ++ sp ∷ codes "R\"doc(";
                  body = (span_body s).0;
                  after = drop (length closing) (span_body s).1;
                })
                else none)
              e)
          ∙ found)
    ]

open_match-Starts :
    (doc_key s : Text) (m : Match)
    → open_match (head_of doc_key) s ≡ some m
    → Starts doc_key (head_of doc_key ++ s) m
open_match-Starts doc_key [] m found = none_given found
open_match-Starts doc_key (c ∷ s) m found =
    let closed = close_match (head_of doc_key ++ c ∷ codes "R\"doc(") (span_body (drop 6 s)) in
    elim (Bool-cases (is_space c && starts_with s (codes "R\"doc("))) [
      | inl e ↦
          subst (λ t. Starts doc_key (head_of doc_key ++ (c ∷ t)) m)
            (sym (starts_with-drop s (codes "R\"doc(") (&&-right _ _ e)))
            (close_match-Starts doc_key c (drop 6 s) m (&&-left _ _ e)
              (sym (ap (λ b. if b then closed else none) e) ∙ found))
      | inr e ↦ none_given (sym (ap (λ b. if b then closed else none) e) ∙ found)
    ]

match_at-Starts : (doc_key s : Text) (m : Match) → match_at doc_key s ≡ some m → Starts doc_key s m
unfolding match_at
match_at-Starts doc_key s m found =
    let opened = open_match (head_of doc_key) (drop (length (head_of doc_key)) s) in
    elim (Bool-cases (starts_with s (head_of doc_key))) [
      | inl e ↦
          subst (λ t. Starts doc_key t m) (sym (starts_with-drop s (head_of doc_key) e))
            (open_match-Starts doc_key _ m (sym (ap (λ b. if b then opened else none) e) ∙ found))
      | inr e ↦ none_given (sym (ap (λ b. if b then opened else none) e) ∙ found)
    ]

-- A match behind the first character is a match of the rest.
behind :
    (doc_key s b : Text) (c d : ℕ) (m : Match)
    → m.before ≡ d ∷ b
    → IsMatch doc_key (c ∷ s) m
    → IsMatch doc_key s (record m { before = b })
behind doc_key s b c d m at is = record {
  space = is.space;
  is_blank = is.is_blank;
  is_opening = is.is_opening;
  is_body = is.is_body;
  is_whole =
      ap (drop 1) (is.is_whole ∙ ap (λ t. t ++ (m.opening ++ (m.body ++ (closing ++ m.after)))) at);
}

text-cases : (t : Text) → (t ≡ []) ⊎ ((c : ℕ) × (b : Text) × (t ≡ c ∷ b))
text-cases [] = inl refl
text-cases (c ∷ b) = inr (c, b, refl)

not_here :
    {A : Type 0} (doc_key s : Text) (m : Match)
    → match_at doc_key s ≡ none
    → IsMatch doc_key s m
    → m.before ≡ []
    → A
not_here doc_key s m off is here = none_given (sym off ∙ (match_at-some doc_key s m is here).1)

pushed :
    (doc_key s : Text) (c : ℕ) (o : Option Match)
    → match_at doc_key (c ∷ s) ≡ none
    → IsFirst doc_key s o
    → IsFirst doc_key (c ∷ s) (push c o)
pushed doc_key s c none off first = λ m is. elim (text-cases m.before) [
  | inl here ↦ not_here doc_key (c ∷ s) m off is here
  | inr (d, b, at) ↦ first (record m { before = b }) (behind doc_key s b c d m at is)
]
pushed doc_key s c (some f) off (is, least) = (
  record {
    space = is.space;
    is_blank = is.is_blank;
    is_opening = is.is_opening;
    is_body = is.is_body;
    is_whole = ap (◌∷◌ c) is.is_whole;
  },
  λ m other. elim (text-cases m.before) [
    | inl here ↦ not_here doc_key (c ∷ s) m off other here
    | inr (d, b, at) ↦
        let below = least (record m { before = b }) (behind doc_key s b c d m at other) in
        rw at (omega arith)
  ],
)

end_of : (x y : Text) → [] ≡ x ++ y → [] ≡ y
end_of [] y p = p
end_of (c ∷ x) y p = ground arith

pub first_match-IsFirst : (doc_key file : Text) → IsFirst doc_key file (first_match doc_key file)
unfolding first_match
first_match-IsFirst doc_key [] = λ m is.
    let empty : [] ≡ closing ++ m.after =
      end_of m.body _ (end_of m.opening _ (end_of m.before _ is.is_whole)) in
    ground arith
first_match-IsFirst doc_key (c ∷ s) = elim (Option-cases (match_at doc_key (c ∷ s))) [
  | inl e ↦
      rw (e, first_match)
        (pushed doc_key s c (first_match doc_key s) e (first_match-IsFirst doc_key s))
  | inr (m, e) ↦
      let (is, here) = match_at-Starts doc_key (c ∷ s) m e in
      rw (e, first_match)
        (is, λ other _. subst (λ b. length b ≤ length other.before) (sym here) (omega arith))
]
