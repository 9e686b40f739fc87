-- ===== src/Pydoc/Scrape.antt =====
-- `get_docstrings_dict` of gr-Aegir/docs/doxygen/update_pydoc.py.
use aegir_sdr.Common.{
  Bool, true, false, not, ◌&&◌, none, List, [], ◌∷◌, ◌++◌, Text, codes, starts_with, if◌then◌else◌,
}
use aegir_sdr.Doxyxml.Base.{
  duplicate, no_such_member, parsing_error, attribute_error, no_class, index_error, file_error,
  Result, raises, returns,
}
use aegir_sdr.Pydoc.{
  Doc, Klass, Directory, make_name, ◌then_with◌, is_block, is_block2, make_entry, make_class_entry,
  make_block_entry, make_block2_entry, update, is_in,
}

-- `di.in_category` of the classes that satisfy a test
unfoldable pub blocks_of : (Klass → Result Bool) → List Klass → Result (List Klass)
blocks_of includes [] = returns []
blocks_of includes (k ∷ ks) = includes k then_with λ found.
    blocks_of includes ks then_with λ rest. returns (if found then k ∷ rest else rest)

-- The loop over the blocks: the names of the make functions seen, and the output.
unfoldable pub add_blocks :
    Directory
    → List Klass
    → List Text
    → List (Text × Text)
    → Result (List Text × List (Text × Text))
add_blocks di [] seen output = returns (seen, output)
add_blocks di (b ∷ bs) seen output = di.get_function (make_name b.doc.name) then_with λ f.
    elim (is_in f.name seen) [
      | true ↦ add_blocks di bs seen output
      | false ↦
          make_block_entry di b then_with λ e. add_blocks di bs (f.name ∷ seen) (update output e)
    ]

unfoldable pub add_blocks2 :
    List Klass → List Text → List (Text × Text) → Result (List Text × List (Text × Text))
add_blocks2 [] seen output = returns (seen, output)
add_blocks2 (b ∷ bs) seen output = b.get_function (codes "make") then_with λ f.
    elim (is_in (b.doc.name ++ codes "::make") seen) [
      | true ↦ add_blocks2 bs seen output
      | false ↦ make_block2_entry b then_with λ e.
          add_blocks2 bs ((b.doc.name ++ codes "::make") ∷ seen) (update output e)
    ]

-- A name that is left for the last two loops.
unfoldable pub is_left : List Text → Text → Bool
is_left seen name = not (is_in name seen) && not (starts_with name (codes "std::"))

-- `output.update` of an entry, in a `try` that passes over a `ParsingError`
abbrev pub update_parsed :
    List (Text × Text) → Result (List (Text × Text)) → Result (List (Text × Text))
update_parsed output (returns e) = returns (update output e)
update_parsed output (raises parsing_error) = returns output
update_parsed output (raises duplicate) = raises duplicate
update_parsed output (raises no_such_member) = raises no_such_member
update_parsed output (raises attribute_error) = raises attribute_error
update_parsed output (raises no_class) = raises no_class
update_parsed output (raises index_error) = raises index_error
update_parsed output (raises file_error) = raises file_error

unfoldable pub add_functions :
    List Text → List Doc → List (Text × Text) → Result (List (Text × Text))
add_functions seen [] output = returns output
add_functions seen (f ∷ fs) output = elim (is_left seen f.name) [
  | true ↦ update_parsed output (make_entry f none none []) then_with λ o. add_functions seen fs o
  | false ↦ add_functions seen fs output
]

unfoldable pub add_classes :
    List Text → List Klass → List (Text × Text) → Result (List (Text × Text))
add_classes names [] output = returns output
add_classes names (k ∷ ks) output = elim (is_left names k.doc.name) [
  | true ↦
      update_parsed output (make_class_entry k none [] none) then_with λ o. add_classes names ks o
  | false ↦ add_classes names ks output
]

abbrev pub class_names : List Klass → List Text
class_names [] = []
class_names (k ∷ ks) = k.doc.name ∷ class_names ks

unfoldable pub get_docstrings_dict : Directory → List (Text × Text) → Result (List (Text × Text))
get_docstrings_dict di custom = blocks_of (is_block di) di.classes then_with λ blocks.
    blocks_of is_block2 di.classes then_with λ blocks2.
    add_blocks di blocks [] (update [] custom) then_with λ (seen, output).
    add_blocks2 blocks2 seen output then_with λ (seen2, output2).
    add_functions seen2 di.functions output2 then_with λ output3.
    add_classes (class_names blocks ++ class_names blocks2) di.classes output3
