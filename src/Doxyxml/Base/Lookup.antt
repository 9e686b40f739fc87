-- ===== src/Doxyxml/Base/Lookup.antt =====
-- Finding a member in terms of the list of the members.
use aegir_sdr.Common.{
  ℕ, Bool, true, false, Bool-cases, Option-cases, Option, none, some, inl, inr, List, [], ◌∷◌, ◌++◌,
  ◌≡◌, refl, sym, ap, ◌∙◌, subst, Text, codes, eq_text, eq_text_iff, if◌then◌else◌, arith, all, not,
  ◌==◌, ◌&&◌, cons_head,
}
use aegir_sdr.Doxyxml.Base.{
  duplicate, no_such_member, Result, raises, returns, raise_errors, catch_missing, Objects,
  get_entry, set_entry, add_member, dict_members, get_dict_members, get_first, in_category,
  get_member, get_bits, split_colons, has_member,
}

-- The members with a name, in their order.
abbrev pub with_name : {A : Type 0} → (A → Text) → Text → List A → List A
with_name f n [] = []
with_name f n (x ∷ xs) = if eq_text (f x) n then x ∷ with_name f n xs else with_name f n xs

-- What a search must answer where these members have the name: the one, or an exception.
abbrev pub verdict : {A : Type 0} → List A → Result A
verdict [] = raises no_such_member
verdict (x ∷ []) = returns x
verdict (x ∷ y ∷ xs) = raises duplicate

abbrev pub somes : {A : Type 0} → List A → List (Option A)
somes [] = []
somes (x ∷ xs) = some x ∷ somes xs

-- The entry behind more members with the name.
abbrev more : {A : Type 0} → Option (Option A) → List A → Option (Option A)
more v [] = v
more none (x ∷ xs) = more (some (some x)) xs
more (some v) (x ∷ xs) = more (some none) xs

more-none : {A : Type 0} → (xs : List A) → more (some none) xs ≡ some none
more-none [] = refl
more-none (x ∷ xs) = more-none xs

more-one :
    {A : Type 0}
    → (v : Option (Option A)) (x : A) (xs : List A) → more (more v (x ∷ [])) xs ≡ more v (x ∷ xs)
more-one none x xs = refl
more-one (some v) x xs = refl

raise_errors-more : {A : Type 0} → (xs : List A) → raise_errors (more none xs) ≡ verdict xs
raise_errors-more [] = refl
raise_errors-more (x ∷ []) = refl
raise_errors-more (x ∷ y ∷ xs) = rw (more-none xs) refl

pub clash : {A : Type 0} → false ≡ true → A
clash p = ground arith

pub eq_text-same : (n : Text) → eq_text n n ≡ true
eq_text-same n = (eq_text_iff n n).1 refl

module _ {A : Type 0} where
  -- An entry that is set is found, and the others stay.
  get_entry-set_entry :
      (n k : Text) (v : Option A) (d : List (Text × Option A))
      → get_entry (set_entry n v d) k ≡ (if eq_text n k then some v else get_entry d k)
  unfolding get_entry set_entry
  get_entry-set_entry n k v [] = refl
  get_entry-set_entry n k v ((j, w) ∷ d) = grind (
    arith,
    get_entry-set_entry n k v d,
    (eq_text_iff j n).0,
    (eq_text_iff j n).1,
    (eq_text_iff n k).0,
    (eq_text_iff j k).0,
  )

  get_entry-add_member :
      (n k : Text) (m : A) (d : List (Text × Option A))
      → get_entry (add_member n m d) k
        ≡ (if eq_text n k then more (get_entry d k) (m ∷ []) else get_entry d k)
  unfolding add_member
  get_entry-add_member n k m d = elim (Option-cases (get_entry d n)) [
    | inl missing ↦
        rw (missing, add_member)
          (get_entry-set_entry n k (some m) d ∙ elim (Bool-cases (eq_text n k)) [
            | inl at ↦ rw (at, sym ((eq_text_iff n k).0 at), missing) refl
            | inr off ↦ rw off refl
          ])
    | inr (v, found) ↦
        rw (found, add_member)
          (get_entry-set_entry n k none d ∙ elim (Bool-cases (eq_text n k)) [
            | inl at ↦ rw (at, sym ((eq_text_iff n k).0 at), found) refl
            | inr off ↦ rw off refl
          ])
  ]

module _ {A Cat : Type 0} (objs : Objects A Cat) (nm : A → Text) where
  -- Each object of a list has the name that `nm` says.
  pub data Named : List A → Type 0 where
    named_nil : Named []
    named_cons : {x : A} {xs : List A} → objs.name x ≡ returns (nm x) → Named xs → Named (x ∷ xs)

  -- The dictionary of any list of members.
  dict_members-more :
      (xs : List A)
      → Named xs
      → (d : List (Text × Option A))
      → (r : List (Text × Option A)) × (dict_members objs (somes xs) d ≡ returns r)
        × ((k : Text) → get_entry r k ≡ more (get_entry d k) (with_name nm k xs))
  unfolding dict_members
  dict_members-more [] named_nil d = (d, refl, λ k. refl)
  dict_members-more (x ∷ xs) (named_cons at named) d =
      let (r, eq, all) = dict_members-more xs named (add_member (nm x) x d) in
      (
        r,
        rw (at, dict_members) eq,
        λ k.
            all k
            ∙ (ap (λ v. more v (with_name nm k xs)) (get_entry-add_member (nm x) k x d)
                ∙ elim (Bool-cases (eq_text (nm x) k)) [
                  | inl at ↦ rw at (more-one (get_entry d k) x (with_name nm k xs))
                  | inr off ↦ rw off refl
                ]),
      )

  -- The answer of one step is that of the list of the members with the name.
  pub get_first-verdict :
      (cat : Option Cat) (a : A) (xs : List A)
      → Named xs
      → in_category objs cat a ≡ returns (somes xs)
      → (n : Text) → get_first objs cat a n ≡ verdict (with_name nm n xs)
  unfolding get_first get_dict_members get_entry
  get_first-verdict cat a xs named at n =
      let (r, eq, all) = dict_members-more xs named [] in
      rw (at, get_first, get_dict_members)
        (rw eq (ap raise_errors (all n) ∙ raise_errors-more (with_name nm n xs)))

-- A name that a search does not split.
abbrev pub is_simple : Text → Bool
is_simple n = all (λ c. not (c == b':')) n

simple-head :
    (a : ℕ) (n : Text) → is_simple (a ∷ n) ≡ true → ((a == b':') ≡ false) × (is_simple n ≡ true)
simple-head a n s = elim (Bool-cases (a == b':')) [
  | inl p ↦ clash (subst (λ b. (not b && is_simple n) ≡ true) p s)
  | inr p ↦ (p, subst (λ b. (not b && is_simple n) ≡ true) p s)
]

split_colons-step :
    (a b : ℕ) (n : Text)
    → (a == b':') ≡ false
    → split_colons (a ∷ b ∷ n) ≡ cons_head a (split_colons (b ∷ n))
unfolding split_colons
split_colons-step a b n p = rw (p, split_colons) refl

split_colons-simple : (n : Text) → is_simple n ≡ true → split_colons n ≡ n ∷ []
unfolding split_colons
split_colons-simple [] s = refl
split_colons-simple (a ∷ []) s = refl
split_colons-simple (a ∷ b ∷ n) s =
    let (p, t) = simple-head a (b ∷ n) s in
    split_colons-step a b n p ∙ ap (cons_head a) (split_colons-simple (b ∷ n) t)

-- A qualified name is split at its first separator.
split_colons-qualified :
    (n rest : Text)
    → is_simple n ≡ true
    → split_colons (n ++ (codes "::" ++ rest)) ≡ n ∷ split_colons rest
unfolding split_colons
split_colons-qualified [] rest s = refl
split_colons-qualified (a ∷ []) rest s =
    split_colons-step a b':' (b':' ∷ rest) ((simple-head a [] s).0)
split_colons-qualified (a ∷ b ∷ n) rest s =
    let (p, t) = simple-head a (b ∷ n) s in
    split_colons-step a b (n ++ (codes "::" ++ rest)) p
    ∙ ap (cons_head a) (split_colons-qualified (b ∷ n) rest t)

-- What has a member says, for the list of the members with the name.
abbrev pub has_verdict : {A : Type 0} → List A → Result Bool
has_verdict [] = returns false
has_verdict (x ∷ []) = returns true
has_verdict (x ∷ y ∷ xs) = raises duplicate

catch_missing-verdict : {A : Type 0} → (xs : List A) → catch_missing (verdict xs) ≡ has_verdict xs
catch_missing-verdict [] = refl
catch_missing-verdict (x ∷ []) = refl
catch_missing-verdict (x ∷ y ∷ xs) = refl

module _ {A Cat : Type 0} (objs : Objects A Cat) (nm : A → Text) where
  get_member-simple :
      (cat : Option Cat) (a : A) (xs : List A)
      → Named objs nm xs
      → in_category objs cat a ≡ returns (somes xs)
      → (n : Text) → is_simple n ≡ true
      → get_member objs cat a n ≡ verdict (with_name nm n xs)
  unfolding get_member get_bits
  get_member-simple cat a xs named at n simple =
      rw (split_colons-simple n simple, get_member) (get_first-verdict objs nm cat a xs named at n)

  -- If the members of a category are found without an exception, none of them is a `None`, and each has a
  -- name, then a search for a name without a separator answers the one member of the category with that name; it
  -- raises `NoSuchMember` where there is none and `Duplicate` where there are several; and
  -- `has_member` is true, false, and raises `Duplicate` in these cases.
  pub get_member-verdict :
      (cat : Option Cat) (a : A) (xs : List A)
      → Named objs nm xs
      → in_category objs cat a ≡ returns (somes xs)
      → (n : Text) → is_simple n ≡ true
      → (get_member objs cat a n ≡ verdict (with_name nm n xs))
        × (has_member objs cat a n ≡ has_verdict (with_name nm n xs))
  unfolding has_member
  get_member-verdict cat a xs named at n simple = (
    get_member-simple cat a xs named at n simple,
    rw (get_member-simple cat a xs named at n simple, has_member)
        (catch_missing-verdict (with_name nm n xs)),
  )
