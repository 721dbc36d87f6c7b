-- ===== src/Cpio/Tests.antt =====
-- An archive of one module.
use svetos_kernel.Base.{◌%◌, ◌≡◌, refl, some, List, [], ◌∷◌, ◌++◌, length}
use svetos_kernel.Cpio.{Str, add_file_to_cpio, add_end}
use svetos_kernel.Cpio.Names.{after_prefix, tokens_from}
use svetos_kernel.Cpio.Main.{
  Files, parse_arguments, module_tokens, add_modules, build_archive, main,
}
use svetos_kernel.Cpio.Layout.{add_file_to_cpio_lem, main_lem}

abbrev five : Str
five = 1 ∷ 2 ∷ 3 ∷ 4 ∷ 5 ∷ []

add_file_to_cpio_lem_example :
    (head pad : Str) × (add_file_to_cpio [] (some five) (97 ∷ []) ≡ [] ++ head ++ five ++ pad)
    × (length ([] ++ head) % 4 ≡ 0)
    × (length (add_file_to_cpio [] (some five) (97 ∷ [])) % 4 ≡ 0)
add_file_to_cpio_lem_example = add_file_to_cpio_lem [] five (97 ∷ []) refl

abbrev files : Files
files name = some five

-- "--output-initrd=a" and "--add=vga"
abbrev arguments : List Str
arguments =
    (45 ∷ 45 ∷ 111 ∷ 117 ∷ 116 ∷ 112 ∷ 117 ∷ 116 ∷ 45 ∷ 105 ∷ 110 ∷ 105 ∷ 116 ∷ 114 ∷ 100 ∷ 61 ∷ 97
      ∷ [])
    ∷ (45 ∷ 45 ∷ 97 ∷ 100 ∷ 100 ∷ 61 ∷ 118 ∷ 103 ∷ 97 ∷ [])
    ∷ []

abbrev archive : Str
archive = add_end (add_modules files ((118 ∷ 103 ∷ 97 ∷ []) ∷ []) [])

main_runs : main files arguments ≡ some (97 ∷ [], archive)
unfolding main build_archive parse_arguments after_prefix module_tokens tokens_from
main_runs = refl

main_lem_example : length archive % 4 ≡ 0
main_lem_example = main_lem files arguments (97 ∷ []) archive main_runs
