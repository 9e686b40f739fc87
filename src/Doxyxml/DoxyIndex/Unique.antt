-- ===== src/Doxyxml/DoxyIndex/Unique.antt =====
-- The members of a class have different names.
use aegir_sdr.Common.{
  true, false, Bool-cases, Option, none, some, inl, inr, ◌⊎◌, List, [], ◌∷◌, ◌≡◌, refl, sym, ap,
  ◌∙◌, Text, eq_text, eq_text_iff, any, if◌then◌else◌, arith,
}
use aegir_sdr.Doxyxml.Base.{
  Error, Objects, no_such_member, Result, raises, returns, get_first, get_dict_members, in_category,
}
use aegir_sdr.Doxyxml.Base.Lookup.{
  with_name, verdict, somes, Named, named_nil, named_cons, get_first-verdict,
}
use aegir_sdr.Doxyxml.DoxyIndex.{
  Class, doxy_class, get_cls, MemberDef, CompoundDef, Object, convert_member, flatten, add_uniques,
  process_memberdefs, members, object_name, doxy_objects, Library, Comment, behind_comment,
  read_comment, parse_retrieved, parse_class,
}

-- The object of a member whose kind has a class.
abbrev pub member_object : MemberDef → Class → Object
member_object m cls = record { cls = cls; refid = none; name = some m.name }

-- Every kind has a class; `cs` are the classes.
pub data Known : List MemberDef → Type 0 where
  known_nil : Known []
  known_cons :
      {m : MemberDef} {ms : List MemberDef} (cls : Class)
      → get_cls m.kind ≡ some cls
      → Known ms
      → Known (m ∷ ms)

-- The object of the first member with a name.
abbrev pub first_named : Text → (ms : List MemberDef) → Known ms → Result Object
first_named n [] known_nil = raises no_such_member
first_named n (m ∷ ms) (known_cons cls at known) =
    if eq_text m.name n then returns (member_object m cls) else first_named n ms known

-- The members with new names, as objects.
abbrev pub uniques_of : List Text → (ms : List MemberDef) → Known ms → List Object
uniques_of seen [] known_nil = []
uniques_of seen (m ∷ ms) (known_cons cls at known) = elim (any (eq_text m.name) seen) [
  | true ↦ uniques_of seen ms known
  | false ↦ member_object m cls ∷ uniques_of (m.name ∷ seen) ms known
]

abbrev pub name_of : Object → Text
name_of o = elim o.name [ none ↦ [] | some n ↦ n ]

pub add_uniques-somes :
    (seen : List Text) (ms : List MemberDef) (known : Known ms)
    → add_uniques seen ms ≡ somes (uniques_of seen ms known)
unfolding add_uniques convert_member
add_uniques-somes seen [] known_nil = refl
add_uniques-somes seen (m ∷ ms) (known_cons cls at known) =
    elim (Bool-cases (any (eq_text m.name) seen)) [
      | inl old ↦ rw (old, add_uniques, uniques_of) (add_uniques-somes seen ms known)
      | inr new ↦
          rw (new, add_uniques, uniques_of, at, convert_member)
            (ap (◌∷◌ (some (member_object m cls))) (add_uniques-somes (m.name ∷ seen) ms known))
    ]

eq_text-sym : (s t : Text) → eq_text s t ≡ eq_text t s
eq_text-sym s t = grind (arith, (eq_text_iff s t).0, (eq_text_iff s t).1, (eq_text_iff t s).0)

clash : {A : Type 0} → false ≡ true → A
clash p = ground arith

any-head :
    (n k : Text) (seen : List Text)
    → eq_text k n ≡ false
    → any (eq_text n) (k ∷ seen) ≡ any (eq_text n) seen
any-head n k seen off = rw (eq_text-sym n k, off) refl

-- A name that was seen comes no more.
with_name-seen :
    (n : Text) (seen : List Text) (ms : List MemberDef) (known : Known ms)
    → any (eq_text n) seen ≡ true
    → with_name name_of n (uniques_of seen ms known) ≡ []
with_name-seen n seen [] known_nil was = refl
with_name-seen n seen (m ∷ ms) (known_cons cls at known) was =
    elim (Bool-cases (any (eq_text m.name) seen)) [
      | inl old ↦ rw (old, uniques_of) (with_name-seen n seen ms known was)
      | inr new ↦ elim (Bool-cases (eq_text m.name n)) [
        | inl same ↦
            clash (sym new ∙ ap (λ k. any (eq_text k) seen) ((eq_text_iff m.name n).0 same) ∙ was)
        | inr off ↦
            rw (new, uniques_of, off)
              (with_name-seen n (m.name ∷ seen) ms known (any-head n m.name seen off ∙ was))
      ]
    ]

-- Another name comes with its first member alone.
with_name-uniques_of :
    (n : Text) (seen : List Text) (ms : List MemberDef) (known : Known ms)
    → any (eq_text n) seen ≡ false
    → verdict (with_name name_of n (uniques_of seen ms known)) ≡ first_named n ms known
with_name-uniques_of n seen [] known_nil fresh = refl
with_name-uniques_of n seen (m ∷ ms) (known_cons cls at known) fresh =
    elim (Bool-cases (eq_text m.name n)) [
      | inl same ↦
          rw
            (
              ap (λ k. any (eq_text k) seen) ((eq_text_iff m.name n).0 same) ∙ fresh,
              uniques_of,
              same,
            )
            (rw (with_name-seen n (m.name ∷ seen) ms known (rw (eq_text-sym n m.name, same) refl))
              refl)
      | inr off ↦ elim (Bool-cases (any (eq_text m.name) seen)) [
        | inl old ↦ rw (old, uniques_of, off) (with_name-uniques_of n seen ms known fresh)
        | inr new ↦
            rw (new, uniques_of, off)
              (with_name-uniques_of n (m.name ∷ seen) ms known (any-head n m.name seen off ∙ fresh))
      ]
    ]

pub uniques_of-Named :
    (library : Library) (refs : List (Text × Object)) (seen : List Text) (ms : List MemberDef)
    (known : Known ms)
    → Named (doxy_objects library refs) name_of (uniques_of seen ms known)
unfolding object_name
uniques_of-Named library refs seen [] known_nil = named_nil
uniques_of-Named library refs seen (m ∷ ms) (known_cons cls at known) =
    elim (Bool-cases (any (eq_text m.name) seen)) [
      | inl old ↦ rw (old, uniques_of) (uniques_of-Named library refs seen ms known)
      | inr new ↦
          rw (new, uniques_of)
            (named_cons refl (uniques_of-Named library refs (m.name ∷ seen) ms known))
    ]

Result-cases {ℓ} :
    {A : Type ℓ} (r : Result A) → ((e : Error) × (r ≡ raises e)) ⊎ ((a : A) × (r ≡ returns a))
Result-cases (raises e) = inl (e, refl)
Result-cases (returns a) = inr (a, refl)

get_first-raises :
    {A Cat : Type 0} (objs : Objects A Cat) (cat : Option Cat) (a : A) (e : Error)
    → in_category objs cat a ≡ raises e
    → (n : Text) → get_first objs cat a n ≡ raises e
unfolding get_first get_dict_members
get_first-raises objs cat a e failed n = rw (get_first, get_dict_members, failed) refl

-- In a class that is not parsed yet and whose file is retrieved, a search raises what the reading of the class's comment
-- raises. Otherwise, if the members are all of known kinds, a search for a name
-- answers the first member with that name, or raises `NoSuchMember`; it never raises `Duplicate`,
-- and a second overload of a method is not found.
pub get_first-class :
    (library : Library) (refs : List (Text × Object)) (refid : Text) (name : Option Text)
    (d : CompoundDef) (comment : Comment)
    → library refid ≡ returns (some (d, comment))
    → (known : Known (flatten d.sectiondef)) → (n : Text)
    → get_first
        (doxy_objects library refs)
        none
        (record { cls = doxy_class; refid = some refid; name = name })
        n
      ≡ behind_comment (read_comment comment) (first_named n (flatten d.sectiondef) known)
unfolding in_category members process_memberdefs
get_first-class library refs refid name d comment found known n =
    let this : Object = record { cls = doxy_class; refid = some refid; name = name } in
    elim (Result-cases (read_comment comment)) [
      | inl (e, failed) ↦
          get_first-raises (doxy_objects library refs) none this e
            (ap (parse_retrieved parse_class) found
              ∙ ap (λ r. behind_comment r (returns (process_memberdefs d))) failed)
            n
          ∙ sym (ap (λ r. behind_comment r (first_named n (flatten d.sectiondef) known)) failed)
      | inr (stored, read) ↦
          get_first-verdict (doxy_objects library refs) name_of none this
            (uniques_of [] (flatten d.sectiondef) known)
            (uniques_of-Named library refs [] (flatten d.sectiondef) known)
            (ap (parse_retrieved parse_class) found
              ∙ ap (λ r. behind_comment r (returns (process_memberdefs d))) read
              ∙ ap returns (add_uniques-somes [] (flatten d.sectiondef) known))
            n
          ∙ with_name-uniques_of n [] (flatten d.sectiondef) known refl
          ∙ sym (ap (λ r. behind_comment r (first_named n (flatten d.sectiondef) known)) read)
    ]
