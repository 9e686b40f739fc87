-- ===== src/Pydoc/Tests.antt =====
-- The theorems on names and literals, and the docstrings of a small directory.
use aegir_sdr.Common.{
  false, true, List, Option, none, some, [], ◌∷◌, ◌≡◌, refl, Text, codes, split_on, join, strip,
  contains, starts_with, find, replace,
}
use aegir_sdr.Doxyxml.Base.{returns, split_colons}
use aegir_sdr.Pydoc.{
  Doc, Klass, format_params, make_block2_entry, py_name, make_name, utoascii, make_entry,
  entry_name, combine_descriptions, encode_replace, with_params,
}
use aegir_sdr.Pydoc.Template.{
  literal, group, parse_template, escape, numbered, known_escape, after_g, after_zero,
}
use aegir_sdr.Pydoc.Substitute.{
  Match, Status, sub_entry, first_match, match_at, expand, pass, silent,
}
use aegir_sdr.Pydoc.Substitute.First.{IsFirst}
use aegir_sdr.Pydoc.Entries.{get_item, make_block2_entry-get_item}
use aegir_sdr.Pydoc.Written.{written, outcome, sub_entry-utoascii}
use aegir_sdr.Pydoc.Literal.{is_literal, utoascii-is_literal}
use aegir_sdr.Pydoc.Names.{make_name-py_name}

make_name-py_name_example :
    (make_name (codes "aegir_source_c") ≡ codes "aegir_make_source_c")
    × (py_name (codes "aegir_source_c") ≡ codes "source_c")
    × (py_name (make_name (codes "aegir_source_c")) ≡ codes "make_source_c")
make_name-py_name_example = make_name-py_name (codes "aegir") (codes "source_c") refl

utoascii-is_literal_example : is_literal false (utoascii (some (codes "say \"\\n\""))) ≡ true
utoascii-is_literal_example = utoascii-is_literal (some (codes "say \"\\n\""))

abbrev doc : Doc
doc = record {
  name = codes "tune";
  definition = some (codes "void gr::tune");
  brief_description = some (codes " Tunes. ");
  detailed_description = some [];
  params = [];
}

make_entry_definition :
    make_entry doc none none [] ≡ returns ((codes "gr::tune", codes "Tunes.") ∷ [])
unfolding make_entry entry_name split_on contains find starts_with combine_descriptions strip join
    utoascii encode_replace replace with_params format_params
make_entry_definition = refl

-- A header with the literal of one function, and a docstring that begins with a number.
abbrev header : Text
header = codes "static const char *__doc_gr_tune = R\"doc()doc\";"

-- What an expression makes of another key does not matter here.
abbrev keeps_file : Text → Text → Text → Text × Status
keeps_file key value file = (file, silent)

sub_entry-utoascii_example :
    (m : Option Match) × IsFirst (codes "gr_tune") header m
    × (sub_entry keeps_file (codes "gr::tune") (utoascii (some (codes "12 \"bits\""))) header
        ≡ outcome header m (written (codes "12 \"bits\"")))
unfolding split_colons join encode_replace
sub_entry-utoascii_example =
    sub_entry-utoascii keeps_file (codes "gr::tune") (codes "12 \"bits\"") header refl

sub_entry_octal :
    sub_entry keeps_file (codes "gr::tune") (utoascii (some (codes "12 \"bits\""))) header
    ≡ (codes "static const char *J \\\"bits\\\")doc\";", pass)
unfolding sub_entry first_match split_colons join starts_with match_at parse_template escape
    numbered expand utoascii encode_replace replace known_escape
sub_entry_octal = refl

sub_entry_plain :
    sub_entry keeps_file (codes "gr::tune") (codes "tunes") header
    ≡ (codes "static const char *__doc_gr_tune = R\"doc(tunes)doc\";", pass)
unfolding sub_entry first_match split_colons join starts_with match_at parse_template escape
    numbered expand
sub_entry_plain = refl

-- A group that a caller of `subn` could name, and a group that there is not.
parse_template_groups :
    (parse_template 0 (codes "\\g<1>\\n\\07!")
      ≡ some (group 1 ∷ literal 10 ∷ literal 7 ∷ literal b'!' ∷ []))
    × (parse_template 0 (codes "\\3") ≡ none)
    × (parse_template 0 (codes "\\q") ≡ none)
unfolding parse_template escape numbered known_escape after_g after_zero
parse_template_groups = (refl, refl, refl)

abbrev make_doc : Doc
make_doc = record {
  name = codes "make";
  definition = some (codes "sptr gr::tuner::make");
  brief_description = some (codes "Makes a tuner.");
  detailed_description = some [];
  params = (codes "freq", codes "in Hz") ∷ [];
}

abbrev tuner : Klass
tuner = record {
  doc = record doc { name = codes "gr::tuner"; definition = none };
  error = false;
  functions = returns (make_doc ∷ doc ∷ []);
  get_function = λ n. returns make_doc;
  has_friend = λ n. returns false;
  has_function = λ n. returns true;
  has_other = λ n. returns true;
}

abbrev tuner_text : Text
tuner_text =
    codes
      "Tunes.\n\nConstructor Specific Documentation:\n\nMakes a tuner.\n\nArgs:\n    freq : in Hz"

make_block2_entry-get_item_example :
    (d : List (Text × Text)) × (make_block2_entry tuner ≡ returns d)
    × (get_item d (codes "gr::tuner") ≡ some tuner_text)
    × (get_item d (codes "gr::tuner::make") ≡ some tuner_text)
unfolding contains find starts_with combine_descriptions strip join utoascii encode_replace replace
    with_params format_params
make_block2_entry-get_item_example =
    make_block2_entry-get_item tuner (codes "Tunes.") (codes "Makes a tuner.") make_doc
      (make_doc ∷ doc ∷ []) refl refl refl refl refl refl refl refl
