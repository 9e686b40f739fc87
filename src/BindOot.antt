-- ===== src/BindOot.antt =====
-- gr-Aegir/python/Aegir/bindings/bind_oot_file.py: the arguments of the command line, and what is given
-- to the binding generator of GNU Radio for them.
pub mod Defines
mod Tests
use aegir_sdr.Common.{
  ℕ, Bool, true, false, ◌&&◌, ◌||◌, Option, none, some, List, [], ◌∷◌, Text, codes, leb, eq_text,
  map, split_on, join, if◌then◌else◌, ◌+◌,
}

-- The arguments; `none` is an option that is not given.
pub record Arguments : Type 0 where
  pub module_name : Option Text
  pub output_dir : Option Text
  pub prefix : Option Text
  pub filename : Option Text
  pub defines : Option (List Text)
  pub include : Option (List Text)
  pub status : Option Text
  pub flag_automatic : Option Text
  pub flag_pygccxml : Option Text

-- What `BindingGenerator` and its `gen_file_binding` are given.
pub record Generation : Type 0 where
  pub prefix : Option Text
  pub namespace : List (Option Text)
  pub prefix_include_root : Option Text
  pub output_dir : Text
  pub define_symbols : List Text
  pub addl_includes : Text
  pub catch_exceptions : Bool
  pub write_json_output : Bool
  pub status_output : Option Text
  pub flag_automatic : Bool
  pub flag_pygccxml : Bool
  pub filename : Option Text

abbrev pub or_default {ℓ} : {A : Type ℓ} → Option A → A → A
or_default none d = d
or_default (some a) d = a

-- `tuple(','.join(args.defines).split(','))`
unfoldable pub define_symbols_of : List Text → List Text
define_symbols_of defines = split_on b',' (join (codes ",") defines)

lower : ℕ → ℕ
lower c = if leb b'A' c && leb c b'Z' then c + 32 else c

-- `flag.lower() in ['1', 'true']`
unfoldable pub is_set : Text → Bool
unfolding lower
is_set flag = eq_text (map lower flag) (codes "1") || eq_text (map lower flag) (codes "true")

-- The script, with the directory for temporary files
unfoldable pub generate : Text → Arguments → Generation
generate temp args = record {
  prefix = args.prefix;
  namespace = some (codes "gr") ∷ args.module_name ∷ [];
  prefix_include_root = args.module_name;
  output_dir = or_default args.output_dir temp;
  define_symbols = define_symbols_of (or_default args.defines []);
  addl_includes = join (codes ",") (or_default args.include []);
  catch_exceptions = false;
  write_json_output = false;
  status_output = args.status;
  flag_automatic = is_set (or_default args.flag_automatic (codes "0"));
  flag_pygccxml = is_set (or_default args.flag_pygccxml (codes "0"));
  filename = args.filename;
}
