-- ===== src/BindOot/Tests.antt =====
-- The theorem on the symbols, for two of them, and the flags of a command line.
use aegir_sdr.Common.{true, none, some, [], ◌∷◌, ◌≡◌, refl, codes, eq_text}
use aegir_sdr.BindOot.{Arguments, generate, is_set}
use aegir_sdr.BindOot.Defines.{one_symbol, more_symbols, generate-define_symbols}

abbrev arguments : Arguments
arguments = record {
  module_name = some (codes "Aegir");
  output_dir = none;
  prefix = none;
  filename = some (codes "AegirSDR.h");
  defines = some (codes "A=1" ∷ codes "B" ∷ []);
  include = none;
  status = none;
  flag_automatic = some (codes "TRUE");
  flag_pygccxml = none;
}

generate-define_symbols_example :
    ((generate (codes "/tmp") arguments).define_symbols ≡ codes "A=1" ∷ codes "B" ∷ [])
    × ((generate (codes "/tmp") (record arguments { defines = none })).define_symbols ≡ [] ∷ [])
generate-define_symbols_example =
    generate-define_symbols (codes "/tmp") arguments (codes "A=1" ∷ codes "B" ∷ []) refl
      (more_symbols (codes "A=1") refl (one_symbol (codes "B") refl))

generate-flag_automatic : (generate (codes "/tmp") arguments).flag_automatic ≡ true
unfolding generate is_set eq_text
generate-flag_automatic = refl
