-- ===== src/Doxyxml/DoxyIndex/Broken.antt =====
-- What the index keeps where the file of a namespace is broken.
use aegir_sdr.Common.{
  Option, none, some, List, [], ◌∷◌, ◌++◌, ◌≡◌, refl, ap, ◌∙◌, Text, codes, eq_text, arith,
}
use aegir_sdr.Doxyxml.Base.{Error, attribute_error, Result, raises, returns}
use aegir_sdr.Doxyxml.DoxyIndex.{
  IndexCompound, Library, parse_retrieved, Object, get_cls, first_class, convert_compound, members,
  doxy_namespace, parse_namespace, add_with_members, add_by_class, add_compound, add_rest,
  parse_index,
}

-- A namespace, as the index lists it.
abbrev pub namespace_of : Text → Text → IndexCompound
namespace_of refid name = record { kind = codes "namespace"; refid = refid; name = name }

members-broken :
    (library : Library) (refs : List (Text × Object)) (refid name : Text)
    → library refid ≡ returns none
    → members library refs (record { cls = doxy_namespace; refid = some refid; name = some name })
      ≡ raises attribute_error
unfolding members
members-broken library refs refid name broken = ap (parse_retrieved parse_namespace) broken

add_compound-broken :
    (library : Library) (refs : List (Text × Object)) (refid name : Text)
    → library refid ≡ returns none
    → add_compound library refs (namespace_of refid name) ≡ raises attribute_error
unfolding add_compound add_by_class add_with_members convert_compound get_cls first_class eq_text
add_compound-broken library refs refid name broken =
    rw (add_compound, add_by_class, add_with_members, members-broken library refs refid name broken)
      refl

none_clash : {A B : Type 0} {a : A} → some a ≡ none → B
none_clash p = ground arith

add_rest-fine :
    (r : Result (List (Option Object))) (p : List (Option Object) × Option Error)
    → (add_rest r p).1 ≡ none
    → p.1 ≡ none
add_rest-fine (raises e) p fine = none_clash fine
add_rest-fine (returns ms) (rest, e) fine = fine

add_rest-stop :
    (r : Result (List (Option Object))) (p : List (Option Object) × Option Error)
    → (add_rest r p).1 ≡ none
    → (e : Error) → add_rest r (p.0, some e) ≡ ((add_rest r p).0, some e)
add_rest-stop (raises e0) p fine e = none_clash fine
add_rest-stop (returns ms) (rest, e0) fine e = refl

-- If the compounds `cs` are read without an exception and the file of the namespace behind them is
-- one that expat refuses, then the index keeps the objects of `cs` and no other, whatever stands behind
-- the namespace, and raises an `AttributeError` where the code has a `ParsingError` for this case.
pub parse_index-broken :
    (library : Library) (refs : List (Text × Object)) (cs ds : List IndexCompound)
    (refid name : Text)
    → (parse_index library refs cs).1 ≡ none
    → library refid ≡ returns none
    → parse_index library refs (cs ++ namespace_of refid name ∷ ds)
      ≡ ((parse_index library refs cs).0, some attribute_error)
unfolding parse_index
parse_index-broken library refs [] ds refid name fine broken =
    rw (parse_index, add_compound-broken library refs refid name broken) refl
parse_index-broken library refs (c ∷ cs) ds refid name fine broken =
    let fine_rest =
      add_rest-fine (add_compound library refs c) (parse_index library refs cs) fine in
    ap (add_rest (add_compound library refs c))
      (parse_index-broken library refs cs ds refid name fine_rest broken)
    ∙ add_rest-stop (add_compound library refs c) (parse_index library refs cs) fine attribute_error
