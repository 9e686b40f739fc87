-- ===== src/Doxyxml/Index/Find.antt =====
-- The search of an index by a filter on compounds and members.
use aegir_sdr.Common.{
  Bool, true, false, ◌||◌, Bool-cases, inl, inr, List, [], ◌∷◌, ◌≡◌, refl, ap, ◌∙◌, any,
  if◌then◌else◌,
}
use aegir_sdr.Doxyxml.Index.{
  MemberType, CompoundType, add_result, find_members, find_compounds_and_members,
}

module _ (match_compound : CompoundType → Bool) (match_member : MemberType → Bool) where
  -- A compound is wanted for itself or for one of its members.
  abbrev pub is_wanted : CompoundType → Bool
  is_wanted c = any match_member c.member || match_compound c

  abbrev pub wanted : List CompoundType → List CompoundType
  wanted [] = []
  wanted (c ∷ cs) = if is_wanted c then c ∷ wanted cs else wanted cs

  -- The members of a list that match, in its order.
  abbrev pub matching : List MemberType → List MemberType
  matching [] = []
  matching (m ∷ ms) = if match_member m then m ∷ matching ms else matching ms

  find_members-matching : (ms : List MemberType) → find_members match_member ms ≡ matching ms
  unfolding find_members
  find_members-matching [] = refl
  find_members-matching (m ∷ ms) =
      ap (λ rest. if match_member m then m ∷ rest else rest) (find_members-matching ms)

  abbrev pub with_members : List CompoundType → List (CompoundType × List MemberType)
  with_members [] = []
  with_members (c ∷ cs) = (c, matching c.member) ∷ with_members cs

  abbrev is_cons : List MemberType → Bool
  is_cons [] = false
  is_cons (m ∷ ms) = true

  any-matching : (ms : List MemberType) → any match_member ms ≡ is_cons (matching ms)
  any-matching [] = refl
  any-matching (m ∷ ms) = elim (Bool-cases (match_member m)) [
    | inl yes_match ↦ rw yes_match refl
    | inr off ↦ rw off (any-matching ms)
  ]

  add_result-wanted :
      (c : CompoundType) (ms : List MemberType) (cs : List CompoundType)
      → matching c.member ≡ ms
      → add_result match_compound c ms (with_members (wanted cs)) ≡ with_members (wanted (c ∷ cs))
  add_result-wanted c [] cs at = elim (Bool-cases (match_compound c)) [
    | inl yes_match ↦ rw (any-matching c.member, at, yes_match) (rw at refl)
    | inr off ↦ rw (any-matching c.member, at, off) refl
  ]
  add_result-wanted c (m ∷ ms) cs at = rw (any-matching c.member, at) (rw at refl)

  -- A search answers, in the order of the index, the compounds that match or have a matching member,
  -- each with all its matching members.
  pub find_compounds_and_members-wanted :
      (cs : List CompoundType)
      → find_compounds_and_members match_compound match_member cs ≡ with_members (wanted cs)
  unfolding find_compounds_and_members
  find_compounds_and_members-wanted [] = refl
  find_compounds_and_members-wanted (c ∷ cs) =
      ap
        (λ ms.
          add_result match_compound c ms
            (find_compounds_and_members match_compound match_member cs))
        (find_members-matching c.member)
      ∙ ap (add_result match_compound c (matching c.member)) (find_compounds_and_members-wanted cs)
      ∙ add_result-wanted c (matching c.member) cs refl
