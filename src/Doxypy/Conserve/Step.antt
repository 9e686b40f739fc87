-- ===== src/Doxypy/Conserve/Step.antt =====
-- What one callback does to the lines of code that are written and that wait.
use aegir_sdr.Common.{
  Bool, true, false, not, ◌&&◌, ◌||◌, Option, none, some, List, [], ◌∷◌, ◌++◌, ◌≡◌, refl, sym, ◌∙◌,
  Text, subst, arith, append_assoc, append-nil, Bool-cases, Option-cases, ◌⊎◌, inl, inr, subst,
}
use aegir_sdr.Doxypy.Patterns.{Match, group1}
use aegir_sdr.Doxypy.Machine.{
  State, is_state, Callback, Transition, Doxypy, call, on_start, on_comment, with_group,
  CommentPart, single_line, multiline_start, multiline_end, in_multiline, comment_part, on_part,
  append_comment, single_line_body, end_line_body, start_line_body, close_at_body, close_comment,
  filehead, defclass_body, filehead_comment_single, filehead_comment_double, append_comment_line,
  append_filehead_line, append_defclass_line, append_normal_line, reset_comment_search,
  start_comment_search, stop_comment_search, comment_block,
}
use aegir_sdr.Doxypy.Weave.{Weave, Weave-append, Weave-refl, Weave-close}

-- The states in which `self.defclass` is empty.
abbrev pub is_head : State → Bool
is_head s =
    is_state s filehead
    || is_state s filehead_comment_single
    || is_state s filehead_comment_double
    || is_state s defclass_body

abbrev pub keeps_order : Callback → Transition → Bool
keeps_order append_comment_line t =
    is_state t.to_state defclass_body || not (is_head t.to_state) || is_head t.from_state
keeps_order append_filehead_line t = is_head t.from_state
keeps_order append_defclass_line t = not (is_head t.to_state)
keeps_order append_normal_line t = is_head t.from_state
keeps_order reset_comment_search t = not (is_head t.to_state)
keeps_order start_comment_search t = is_head t.from_state && not (is_head t.to_state)
keeps_order stop_comment_search t = true

-- A line of a docstring is what goes to `appendCommentLine`.
abbrev pub code_of : Callback → Text → List Text
code_of append_comment_line line = []
code_of _ line = line ∷ []

-- The lines `ks` of code that were read: some are in the output, the others wait in `def`.
abbrev pub Kept : List Text → List Text → List Text → Type 0
Kept ks out def = (w : List Text) × Weave w out × (ks ≡ w ++ def)

module _ {ks out def : List Text} (kept : Kept ks out def) where
  pub Kept-close :
      (indent : Text) (c : List Text) → Kept ks (out ++ comment_block indent c ++ def) []
  Kept-close indent c =
      (kept.0 ++ def, Weave-close indent c def kept.1, kept.2 ∙ sym (append-nil (kept.0 ++ def)))

  -- One more line is written, with nothing waiting.
  Kept-write : (line : Text) → def ≡ [] → Kept (ks ++ line ∷ []) (out ++ line ∷ []) def
  Kept-write line n = (
    kept.0 ++ line ∷ [],
    Weave-append kept.1 (Weave-refl (line ∷ [])),
    rw (kept.2, n) (simp (append_assoc, append-nil)),
  )

  -- One more line waits.
  Kept-wait : (line : Text) → Kept (ks ++ line ∷ []) out (def ++ line ∷ [])
  Kept-wait line = (kept.0, kept.1, rw (kept.2, append_assoc) refl)

abbrev pub HeadEmpty : State → List Text → Type 0
HeadEmpty s def = is_head s ≡ true → def ≡ []

-- What a callback leaves, where it returns.
abbrev pub Next : List Text → State → Option Doxypy → Type 0
Next ks s none = Unit
Next ks s (some e) =
    Kept ks e.output e.defclass_lines × HeadEmpty s e.defclass_lines × (e.current_state ≡ s)

with_group-Next :
    {ks : List Text} {s : State} (m : Match) (f : Text → Doxypy)
    → ((g : Text) → Next ks s (some (f g)))
    → Next ks s (with_group m f)
unfolding with_group
with_group-Next m f h = elim (Option-cases (group1 m)) [
  | inl e ↦ rw (e, Next) tt
  | inr (g, e) ↦ rw (e, Next) (h g)
]

on_start-Next :
    (ks : List Text) (s : State) (d : Doxypy) (m : Match) (line : Text)
    → is_head s ≡ false
    → Kept ks d.output []
    → d.current_state ≡ s
    → Next (ks ++ line ∷ []) s (on_start d m line)
unfolding on_start
on_start-Next ks s d m line out k at = with_group-Next m _ (λ g. (Kept-wait k line, (λ h. cc), at))

append_comment-Next :
    (ks : List Text) (s : State) (d : Doxypy) (body : Text)
    → ((is_state s defclass_body || not (is_head s)) ≡ true) ⊎ (d.defclass_lines ≡ [])
    → Kept ks d.output d.defclass_lines
    → d.current_state ≡ s
    → Next ks s (some (close_at_body s (append_comment d body)))
unfolding close_at_body close_comment append_comment
append_comment-Next ks s d x h k at = elim (Bool-cases (is_state s defclass_body)) [
  | inl body ↦ rw body (Kept-close k _ _, (λ _. refl), at)
  | inr open_still ↦ rw open_still (k, (ground arith), at)
]

-- Either the callback closes the comment, or nothing waits, or the next state lets lines wait.
order_cases {ℓ} : {X : Type ℓ} (a b : Bool) → (a || b) ≡ true → (b ≡ true → X) → (a ≡ true) ⊎ X
order_cases true b h f = inl refl
order_cases false b h f = inr (f h)

on_comment-Next :
    (p : CommentPart) (t : Transition) (ks : List Text) (d : Doxypy) (m : Match) (line : Text)
    → comment_part t ≡ p
    → keeps_order append_comment_line t ≡ true
    → HeadEmpty t.from_state d.defclass_lines
    → Kept ks d.output d.defclass_lines
    → d.current_state ≡ t.to_state
    → Next ks t.to_state (on_part p d t m line)
unfolding on_part append_comment comment_part
on_comment-Next p t ks d m line is_p o h k at = on_p p is_p
  where
    waits : (x : Text) → Next ks t.to_state (some (close_at_body t.to_state (append_comment d x)))
    waits x =
        append_comment-Next ks t.to_state d x
          (order_cases (is_state t.to_state defclass_body || not (is_head t.to_state))
            (is_head t.from_state) (ground arith) h)
          k at

    on_p : (p : CommentPart) → comment_part t ≡ p → Next ks t.to_state (on_part p d t m line)
    on_p single_line e = with_group-Next m _ (λ x. waits (single_line_body line x))
    on_p multiline_start e =
        with_group-Next m (λ x. append_comment d (start_line_body line x))
          (λ x. (k, (λ hd. h (ground arith)), at))
    on_p multiline_end e = with_group-Next m _ (λ x. waits (end_line_body line x))
    on_p in_multiline e = (k, (λ hd. h (ground arith)), at)

pub call-Next :
    (k : Callback) (t : Transition) (ks : List Text) (d : Doxypy) (m : Match) (line : Text)
    → keeps_order k t ≡ true
    → HeadEmpty t.from_state d.defclass_lines
    → Kept ks d.output d.defclass_lines
    → d.current_state ≡ t.to_state
    → Next (ks ++ code_of k line) t.to_state (call k d t m line)
unfolding call close_comment
call-Next append_comment_line t ks d m line o h k at =
    rw append-nil
      (unfold on_comment in on_comment-Next (comment_part t) t ks d m line refl o h k at)
call-Next append_filehead_line t ks d m line o h k at =
    let written = Kept-write (Kept-close k _ _) line refl in
    (subst (Kept _ _) (sym (h o)) written, (λ e. h o), at)
call-Next append_defclass_line t ks d m line o h k at = (Kept-wait k line, (λ e. ground arith), at)
call-Next append_normal_line t ks d m line o h k at = (Kept-write k line (h o), (λ e. h o), at)
call-Next reset_comment_search t ks d m line o h k at =
    on_start-Next ks t.to_state (close_comment d) m line (ground arith) (Kept-close k _ _) at
call-Next start_comment_search t ks d m line o h k at =
    on_start-Next ks t.to_state d m line (ground arith)
      (subst (Kept ks d.output) (h (ground arith)) k) at
call-Next stop_comment_search t ks d m line o h k at =
    (Kept-write (Kept-close k _ _) line refl, (λ e. refl), at)
