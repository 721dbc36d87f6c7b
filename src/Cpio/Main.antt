-- ===== src/Cpio/Main.antt =====
-- `main` of tools/os-builder.c.
use svetos_kernel.Base.{Option, none, some, List, [], ◌∷◌}
use svetos_kernel.Cpio.{Str, add_file_to_cpio, add_end}
use svetos_kernel.Cpio.Names.{
  after_prefix, output_option, add_option, tokens_from, module_file, module_dest,
}

-- `output_filename` and `modules_to_add`, null at first
pub record Options : Type 0 where
  pub output_filename : Option Str
  pub modules_to_add : Option Str

-- one argument: the first test that hits counts
abbrev pub choose_option : (output add : Option Str) → Options → Options
choose_option (some name) add o = record o { output_filename = some name }
choose_option none (some names) o = record o { modules_to_add = some names }
choose_option none none o = o

unfoldable pub parse_arguments : List Str → Options → Options
parse_arguments [] o = o
parse_arguments (a ∷ rest) o =
    parse_arguments rest
      (choose_option (after_prefix output_option a) (after_prefix add_option a) o)

-- the files that can be read, by their names
abbrev pub Files : Type 0
Files = Str → Option Str

unfoldable pub add_modules : Files → List Str → Str → Str
add_modules files [] archive = archive
add_modules files (t ∷ ts) archive =
    add_modules files ts (add_file_to_cpio archive (files (module_file t)) (module_dest t))

unfoldable pub module_tokens : Option Str → List Str
module_tokens none = []
module_tokens (some names) = tokens_from [] names

-- the name of the output file with what is written to it, if `main` comes so far; `arguments` are
-- those after the program's name
abbrev pub written : Option Str → Str → Option (Str × Str)
written none archive = none
written (some name) archive = some (name, archive)

unfoldable pub build_archive : Files → Options → Option (Str × Str)
build_archive files o =
    written o.output_filename (add_end (add_modules files (module_tokens o.modules_to_add) []))

unfoldable pub main : Files → List Str → Option (Str × Str)
main files [] = none
main files (a ∷ rest) =
    build_archive files
      (parse_arguments (a ∷ rest) (record { output_filename = none; modules_to_add = none }))
