-- ===== src/Doxypy/Table.antt =====
-- What `select` finds in a table of transitions, and what holds of every row of the table.
use aegir_sdr.Common.{
  Bool, true, false, ◌&&◌, ◌≢◌, inl, inr, Option, none, some, List, [], ◌∷◌, ◌≡◌, refl, Text, arith,
  any, all, Option-cases,
}
use aegir_sdr.Doxypy.Patterns.{Match, Condition, catchall, check}
use aegir_sdr.Doxypy.Machine.{
  State, is_state, Transition, transitions, attempt, select, Doxypy, call, dispatch,
  make_transition, filehead,
}

-- A row that every line takes in its state.
abbrev is_catchall : Condition → Bool
is_catchall catchall = true
is_catchall _ = false

abbrev covers : State → Transition → Bool
covers s t = is_state t.from_state s && is_catchall t.condition

-- What `select` returns is a row of the table with the property that all rows have.
abbrev pub Found : (Transition → Bool) → State → Text → Option (Transition × Match) → Type 0
Found p s line none = ⊥
Found p s line (some (t, m)) =
    (p t ≡ true) × (is_state t.from_state s ≡ true) × (check t.condition line ≡ some m)

check-catchall : (c : Condition) (line : Text) → is_catchall c ≡ true → check c line ≢ none
unfolding check
check-catchall catchall line h e = cc
check-catchall _ line h e = cc

select-Found :
    (p : Transition → Bool) (s : State) (line : Text) (ts : List Transition)
    → all p ts ≡ true
    → any (covers s) ts ≡ true
    → Found p s line (select s line ts)
unfolding select
select-Found p s line [] h c = cc
select-Found p s line (t ∷ ts) h c = elim (Option-cases (attempt s line t)) [
  | inl missed ↦
      rw (missed, select)
        (select-Found p s line ts (ground arith)
          (unfold attempt in ground (arith, check-catchall t.condition line)))
  | inr (m, met) ↦
      rw (met, select)
        (ground arith, (unfold attempt in ground arith), (unfold attempt in ground arith))
]

-- Every state has a row that every line takes.
covered : (s : State) → any (covers s) transitions ≡ true
unfolding transitions is_state
covered filehead = refl
covered _ = refl

-- A step is the call of one row's callback; what all rows have, this row has.
pub record Taken (p : Transition → Bool) (d : Doxypy) (line : Text) : Type 0 where
  pub row : Transition
  pub found : Match
  pub row_has : p row ≡ true
  pub from_here : is_state row.from_state d.current_state ≡ true
  pub condition_met : check row.condition line ≡ some found
  pub selected : select d.current_state line transitions ≡ some (row, found)
  pub step_is :
      make_transition d line
      ≡ call row.callback (record d { current_state = row.to_state }) row found line

dispatch-Taken :
    (p : Transition → Bool) (d : Doxypy) (line : Text) (o : Option (Transition × Match))
    → select d.current_state line transitions ≡ o
    → Found p d.current_state line o
    → Taken p d line
unfolding make_transition dispatch
dispatch-Taken p d line none e f = absurd f
dispatch-Taken p d line (some (t, m)) e f = record {
  row = t;
  found = m;
  row_has = f.0;
  from_here = f.1;
  condition_met = f.2;
  selected = e;
  step_is = rw e;
}

pub taken :
    (p : Transition → Bool) → all p transitions ≡ true → (d : Doxypy) (line : Text) → Taken p d line
taken p h d line =
    dispatch-Taken p d line (select d.current_state line transitions) refl
      (select-Found p d.current_state line transitions h (covered d.current_state))
