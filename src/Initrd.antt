-- ===== src/Initrd.antt =====
-- kernel/src/initrd/initrd.c, whose functions are stubs, and what follows for the loader: `-1` is
-- `none`, and the lines that are printed are a list of format strings.
pub mod Missing
use svetos_kernel.Base.{ℕ, Option, none, some, List, [], ◌∷◌, ◌==◌, if◌then◌else◌}
use svetos_kernel.Base.Text.{codes}
use svetos_kernel.Allocator.{Ptr, null, Allocator}
use svetos_kernel.Registry.{Str}
use svetos_kernel.Strings.{Bytes}
use svetos_kernel.Loader.{Image, load_elf_module, run_entry}
use svetos_kernel.Multiboot.{mods_count, initrd_multiboot_info, read_field}

unfoldable pub elf_load_module : (module_data : Ptr) (size : ℕ) → Ptr
elf_load_module module_data size = null

-- with the address that `global_mb_info` holds: the result and the lines printed
unfoldable pub load_modules_from_initrd : Bytes → (global_mb_info : Ptr) → ℕ × List Str
load_modules_from_initrd mem global_mb_info =
    let begin = codes "Starting module loading from initrd...\n" in
    if global_mb_info == null
    then (0, begin ∷ codes "No multiboot info available\n" ∷ [])
    else if read_field initrd_multiboot_info mem global_mb_info mods_count == 0
    then (0, begin ∷ codes "No modules found in multiboot info\n" ∷ [])
    else (
      0,
      begin
          ∷ codes "Found %d modules in multiboot info\n"
          ∷ codes "Module loading from multiboot not fully implemented yet\n"
          ∷ [],
    )

-- 1 is success.
unfoldable pub initrd_verify_signatures : ℕ
initrd_verify_signatures = 1

-- no file, of size 0
unfoldable pub cpio_get_file : (filename : Str) → Ptr × ℕ
cpio_get_file filename = (null, 0)

-- `load_module_from_cpio` of kernel/src/modules/loader.c, where `run` calls the entry point
unfoldable pub load_module_from_cpio :
    (A : Allocator)
    → (Ptr → Image A → ℕ × Image A)
    → (filename : Str) → Image A
    → Option (Option ℕ × Image A)
load_module_from_cpio A run filename s =
    let (module_data, size) = cpio_get_file filename in
    if module_data == null
    then some (none, s)
    else run_entry A run (load_elf_module A module_data s)
