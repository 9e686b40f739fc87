-- ===== src/Doxyxml/Index/Tests.antt =====
-- The theorems on the objects of an index and on its quotes, at a small index.
use aegir_sdr.Common.{ℕ, true, false, some, [], ◌∷◌, ◌≡◌, Text, codes, eq_text}
use aegir_sdr.Doxyxml.Dom.{get_attr}
use aegir_sdr.Doxyxml.Quote.{quote_xml, quote_attrib}
use aegir_sdr.Doxyxml.Quote.Decode.{decode, decode-quote_xml}
use aegir_sdr.Doxyxml.Quote.Decode.Attribute.{IsAttribute, normal, quote_attrib-IsAttribute}
use aegir_sdr.Doxyxml.Index.{DoxygenType, build_doxygen, find_members, find_compounds_and_members}
use aegir_sdr.Doxyxml.Index.Find.{find_compounds_and_members-wanted}
use aegir_sdr.Doxyxml.Index.Build.{Compound, compound_of, compound_nodes, build_doxygen-nodes}
use aegir_sdr.Doxyxml.Index.Export.{export_doxygen, has_value}
use aegir_sdr.Doxyxml.Index.Literal.{literal_doxygen, literal_doxygen-names}
use aegir_sdr.Doxyxml.Index.Export.Ascii.{export_doxygen-ascii}

abbrev tuner : Compound
tuner = record {
  gap = codes "\n  ";
  name_gap = [];
  end_gap = codes "\n  ";
  kind = codes "class";
  refid = codes "classtuner";
  name = codes "gr::tuner<int>";
  members =
      record {
        gap = codes "\n    ";
        name_gap = [];
        end_gap = [];
        kind = codes "function";
        refid = codes "classtuner_1a";
        name = codes "set";
      }
      ∷ [];
}

build_doxygen-nodes_example :
    build_doxygen true
      ((codes "xmlns:xsi", codes "http://www.w3.org/2001/XMLSchema-instance")
        ∷ (codes "version", codes "1.9")
        ∷ [])
      (compound_nodes (tuner ∷ []) (codes "\n"))
    ≡ some (record { version = some (codes "1.9"); compound = compound_of tuner ∷ [] })
unfolding get_attr eq_text
build_doxygen-nodes_example =
    build_doxygen-nodes true
      ((codes "xmlns:xsi", codes "http://www.w3.org/2001/XMLSchema-instance")
        ∷ (codes "version", codes "1.9")
        ∷ [])
      (tuner ∷ []) (codes "\n")

decode-quote_xml_example : decode 0 (quote_xml (some (codes "a<b>&c"))) ≡ codes "a<b>&c"
decode-quote_xml_example = decode-quote_xml (some (codes "a<b>&c"))

quote_attrib-IsAttribute_example :
    (body : Text) × (q : ℕ) × IsAttribute (quote_attrib (some (codes "say\n\"it's\""))) body q
    × (decode 0 (normal body) ≡ codes "say \"it's\"")
unfolding normal
quote_attrib-IsAttribute_example = quote_attrib-IsAttribute (some (codes "say\n\"it's\""))

abbrev index : DoxygenType
index = record { version = some (codes "1.9"); compound = compound_of tuner ∷ [] }

export_doxygen-ascii_example : has_value (export_doxygen 0 [] (codes "doxygen") [] index) ≡ true
export_doxygen-ascii_example = export_doxygen-ascii 0 [] (codes "doxygen") [] index

find_compounds_and_members-wanted_example :
    find_compounds_and_members (λ c. false) (λ m. true) (compound_of tuner ∷ [])
    ≡ (compound_of tuner, (compound_of tuner).member) ∷ []
unfolding find_members
find_compounds_and_members-wanted_example =
    find_compounds_and_members-wanted (λ c. false) (λ m. true) (compound_of tuner ∷ [])

literal_doxygen-names_example : has_value (literal_doxygen 0 index) ≡ true
literal_doxygen-names_example = literal_doxygen-names 0 index
