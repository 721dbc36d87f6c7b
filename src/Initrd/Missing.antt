-- ===== src/Initrd/Missing.antt =====
-- No module comes from the image of kernel/src/initrd/initrd.c.
use svetos_kernel.Base.{ℕ, ◌≡◌, refl, none, some, inl, inr, Bool-cases, ◌==◌}
use svetos_kernel.Allocator.{Ptr, null, Allocator}
use svetos_kernel.Registry.{Str}
use svetos_kernel.Strings.{Bytes}
use svetos_kernel.Loader.{Image}
use svetos_kernel.Multiboot.{mods_count, initrd_multiboot_info, read_field}
use svetos_kernel.Initrd.{cpio_get_file, load_module_from_cpio, load_modules_from_initrd}

loads_nothing : (mem : Bytes) (mb : Ptr) → (load_modules_from_initrd mem mb).0 ≡ 0
unfolding load_modules_from_initrd
loads_nothing mem mb = elim (Bool-cases (mb == null)) [
  | inl missing ↦ rw missing refl
  | inr given ↦ elim (Bool-cases (read_field initrd_multiboot_info mem mb mods_count == 0)) [
    | inl empty ↦ rw (given, empty) refl
    | inr some_modules ↦ rw (given, some_modules) refl
  ]
]

-- Whatever the file is called and the boot loader reports, `load_module_from_cpio` returns -1 with
-- memory and heap as they were, and `load_modules_from_initrd` returns 0.
pub load_module_from_cpio-fails :
    (A : Allocator) (run : Ptr → Image A → ℕ × Image A) (filename : Str) (s : Image A) (mb : Ptr)
    → (load_module_from_cpio A run filename s ≡ some (none, s))
      × ((load_modules_from_initrd s.bytes mb).0 ≡ 0)
unfolding load_module_from_cpio cpio_get_file
load_module_from_cpio-fails A run filename s mb = (refl, loads_nothing s.bytes mb)
