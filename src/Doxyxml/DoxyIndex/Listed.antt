-- ===== src/Doxyxml/DoxyIndex/Listed.antt =====
-- The members of a group, all of which the index lists.
use aegir_sdr.Common.{
  Bool, true, false, Option, Option-cases, none, some, inl, inr, List, [], ◌∷◌, ◌++◌, ◌≡◌, refl, ap,
  ◌∙◌, subst, Text, all,
}
use aegir_sdr.Doxyxml.Base.{returns, in_category, get_member, has_member}
use aegir_sdr.Doxyxml.Base.Lookup.{
  clash, with_name, verdict, has_verdict, somes, Named, named_cons, is_simple, get_member-verdict,
}
use aegir_sdr.Doxyxml.Description.Breaks.{&&-left, &&-right}
use aegir_sdr.Doxyxml.DoxyIndex.{
  Class, doxy_class, doxy_group, CompoundDef, Comment, Library, Object, find_ref, from_refid,
  from_refids, flatten, process_memberdefs, members, object_name, doxy_objects,
}
use aegir_sdr.Doxyxml.DoxyIndex.Unique.{
  Known, name_of, uniques_of, add_uniques-somes, uniques_of-Named,
}

-- An object with a name is stored under the `refid`.
abbrev has_name : Option Object → Bool
has_name none = false
has_name (some o) = elim o.name [ none ↦ false | some n ↦ true ]

abbrev pub is_listed : List (Text × Object) → Text → Bool
is_listed refs refid = has_name (find_ref refs refid)

abbrev pub objects_of : List (Text × Object) → Class → List Text → List Object
objects_of refs cls [] = []
objects_of refs cls (r ∷ rs) = from_refid refs cls r ∷ objects_of refs cls rs

from_refids-somes :
    (refs : List (Text × Object)) (cls : Class) (rs : List Text)
    → from_refids refs cls rs ≡ somes (objects_of refs cls rs)
from_refids-somes refs cls [] = refl
from_refids-somes refs cls (r ∷ rs) =
    ap (◌∷◌ (some (from_refid refs cls r))) (from_refids-somes refs cls rs)

somes-append : (xs ys : List Object) → somes xs ++ somes ys ≡ somes (xs ++ ys)
somes-append [] ys = refl
somes-append (x ∷ xs) ys = ap (◌∷◌ (some x)) (somes-append xs ys)

object_named :
    (library : Library) (refs : List (Text × Object)) (o : Object)
    → has_name (some o) ≡ true
    → object_name library refs o ≡ returns (name_of o)
unfolding object_name
object_named library refs o h = elim (Option-cases o.name) [
  | inl e ↦ clash (subst (λ v. elim v [ none ↦ false | some n ↦ true ] ≡ true) e h)
  | inr (n, e) ↦ rw (e, object_name, name_of) refl
]

module _ (library : Library) (refs : List (Text × Object)) where
  from_refid-named :
      (cls : Class) (r : Text)
      → is_listed refs r ≡ true
      → object_name library refs (from_refid refs cls r) ≡ returns (name_of (from_refid refs cls r))
  unfolding from_refid
  from_refid-named cls r h = elim (Option-cases (find_ref refs r)) [
    | inl e ↦ clash (subst (λ v. has_name v ≡ true) e h)
    | inr (o, e) ↦
        rw (e, from_refid) (object_named library refs o (subst (λ v. has_name v ≡ true) e h))
  ]

  objects_of-Named :
      (cls : Class) (rs : List Text) (ys : List Object)
      → all (is_listed refs) rs ≡ true
      → Named (doxy_objects library refs) name_of ys
      → Named (doxy_objects library refs) name_of (objects_of refs cls rs ++ ys)
  objects_of-Named cls [] ys h named = named
  objects_of-Named cls (r ∷ rs) ys h named =
      named_cons (from_refid-named cls r (&&-left _ _ h))
        (objects_of-Named cls rs ys (&&-right _ _ h) named)

  -- The inner groups of a group, its inner classes, and its other members with new names.
  abbrev pub group_objects : (d : CompoundDef) → Known (flatten d.sectiondef) → List Object
  group_objects d known =
      objects_of refs doxy_group d.innergroup
      ++ (objects_of refs doxy_class d.innerclass ++ uniques_of [] (flatten d.sectiondef) known)

  group_members :
      (d : CompoundDef) (known : Known (flatten d.sectiondef))
      → from_refids refs doxy_group d.innergroup
          ++ (from_refids refs doxy_class d.innerclass ++ process_memberdefs d)
        ≡ somes (group_objects d known)
  unfolding process_memberdefs
  group_members d known =
      ap (λ xs. xs ++ (from_refids refs doxy_class d.innerclass ++ process_memberdefs d))
        (from_refids-somes refs doxy_group d.innergroup)
      ∙ ap (λ xs. somes (objects_of refs doxy_group d.innergroup) ++ (xs ++ process_memberdefs d))
          (from_refids-somes refs doxy_class d.innerclass)
      ∙ ap
          (λ xs.
            somes (objects_of refs doxy_group d.innergroup)
            ++ (somes (objects_of refs doxy_class d.innerclass) ++ xs))
          (add_uniques-somes [] (flatten d.sectiondef) known)
      ∙ ap (λ xs. somes (objects_of refs doxy_group d.innergroup) ++ xs)
          (somes-append (objects_of refs doxy_class d.innerclass) _)
      ∙ somes-append (objects_of refs doxy_group d.innergroup) _

  -- If the file of a group is read, its members are of known kinds, and its inner groups and classes are stored with
  -- names, then a search for a name without a separator answers the one member with that name among its inner groups,
  -- its inner classes and its other members, and raises `NoSuchMember` or `Duplicate` where there are none or several;
  -- `has_member` agrees.
  pub get_member-group :
      (refid : Text) (name : Option Text) (d : CompoundDef) (comment : Comment)
      → library refid ≡ returns (some (d, comment))
      → (known : Known (flatten d.sectiondef)) → all (is_listed refs) d.innergroup ≡ true
      → all (is_listed refs) d.innerclass ≡ true
      → (n : Text) → is_simple n ≡ true
      → (get_member
            (doxy_objects library refs)
            none
            (record { cls = doxy_group; refid = some refid; name = name })
            n
          ≡ verdict (with_name name_of n (group_objects d known)))
        × (has_member
              (doxy_objects library refs)
              none
              (record { cls = doxy_group; refid = some refid; name = name })
              n
            ≡ has_verdict (with_name name_of n (group_objects d known)))
  unfolding in_category members
  get_member-group refid name d comment found known groups classes n simple =
      get_member-verdict (doxy_objects library refs) name_of none
        (record { cls = doxy_group; refid = some refid; name = name }) (group_objects d known)
        (objects_of-Named doxy_group d.innergroup _ groups (
          objects_of-Named doxy_class d.innerclass _ classes
            (uniques_of-Named library refs [] (flatten d.sectiondef) known)))
        (rw (found, in_category, members) (ap (λ xs. returns xs) (group_members d known))) n simple
