-- ===== src/Doxyxml/Compound/Find.antt =====
-- The searches of generated/compound.py: `find` of a file, of its compound and of its sections.
pub mod Ids
use aegir_sdr.Common.{Bool, true, false, Option, none, some, Text, codes, eq_text, if◌then◌else◌}
use aegir_sdr.Doxyxml.Compound.Object.{
  and_then, Value, missing, string, number, list, object, mixed_container, Values, Fields,
  get_field,
}
use aegir_sdr.Doxyxml.Compound.Read.{fields_of, list_of}

-- `value == refid`, for the `refid` of what is searched for
abbrev pub is_text : Value → Text → Bool
is_text (string s) refid = eq_text s refid
is_text missing refid = false
is_text (number n) refid = false
is_text (list vs) refid = false
is_text (object c fs) refid = false
is_text (mixed_container c name v) refid = false

-- `obj.id == details.refid`; `none` is an `AttributeError`.
abbrev pub has_id : Text → Value → Option Bool
has_id refid v =
    and_then (fields_of v)
      (λ fs. and_then (get_field fs (codes "id")) (λ i. some (is_text i refid)))

-- What goes before what is found later, and what is searched if there is nothing yet.
abbrev pub found_or : Bool → Value → Option (Option Value) → Option (Option Value)
found_or true v rest = some (some v)
found_or false v rest = rest

abbrev pub first_found : Option Value → Option (Option Value) → Option (Option Value)
first_found (some v) rest = some (some v)
first_found none rest = rest

-- The loop of `sectiondefTypeSub.find`
unfoldable pub find_member : Text → Values → Option (Option Value)
find_member refid Values.nil = some none
find_member refid (Values.cons v vs) =
    and_then (has_id refid v) (λ b. found_or b v (find_member refid vs))

abbrev pub find_in_section : Text → Value → Option (Option Value)
find_in_section refid v =
    and_then (fields_of v)
      (λ fs. and_then (list_of (get_field fs (codes "memberdef"))) (find_member refid))

-- The loop of `compounddefTypeSub.find`
unfoldable pub find_section : Text → Values → Option (Option Value)
find_section refid Values.nil = some none
find_section refid (Values.cons v vs) =
    and_then (find_in_section refid v) (λ o. first_found o (find_section refid vs))

abbrev pub sections_of : Text → Value → Option (Option Value)
sections_of refid v =
    and_then (fields_of v)
      (λ fs. and_then (list_of (get_field fs (codes "sectiondef"))) (find_section refid))

-- `compounddefTypeSub.find`
abbrev pub find_in_compound : Text → Value → Option (Option Value)
find_in_compound refid v = and_then (has_id refid v) (λ b. found_or b v (sections_of refid v))

-- `DoxygenTypeSub.find`
abbrev pub find_in_file : Text → Value → Option (Option Value)
find_in_file refid v =
    and_then (fields_of v)
      (λ fs. and_then (get_field fs (codes "compounddef")) (find_in_compound refid))
