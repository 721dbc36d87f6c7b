-- ===== src/Multiboot.antt =====
-- How the boot loader's information lies in memory, by the four declarations of `multiboot_info_t`:
-- include/multiboot.h, include/kernel/multiboot.h, kernel/include/multiboot/multiboot.h and the one
-- of kernel/src/initrd/initrd.c. A layout lists the fields in order with their bytes.
pub mod Layouts
use svetos_kernel.Base.{ℕ, ◌+◌, ◌*◌, Option, none, some, List, [], ◌∷◌, ◌==◌, if◌then◌else◌}
use svetos_kernel.Strings.{Bytes}
use svetos_kernel.Loader.{read32}
use svetos_kernel.Mm.{MultibootInfo}

pub data Field : Type 0 where
  flags mem_lower mem_upper boot_device cmdline mods_count mods_addr : Field
  syms mmap_length mmap_addr drives_length drives_addr config_table : Field
  boot_loader_name apm_table vbe_control_info vbe_mode_info : Field
  vbe_mode vbe_interface_seg vbe_interface_off vbe_interface_len : Field

-- the place of a field in the declarations
abbrev pub number : Field → ℕ
number flags = 0
number mem_lower = 1
number mem_upper = 2
number boot_device = 3
number cmdline = 4
number mods_count = 5
number mods_addr = 6
number syms = 7
number mmap_length = 8
number mmap_addr = 9
number drives_length = 10
number drives_addr = 11
number config_table = 12
number boot_loader_name = 13
number apm_table = 14
number vbe_control_info = 15
number vbe_mode_info = 16
number vbe_mode = 17
number vbe_interface_seg = 18
number vbe_interface_off = 19
number vbe_interface_len = 20

abbrev pub Layout : Type 0
Layout = List (Field × ℕ)

-- the bytes before a field
abbrev pub after_field : ℕ → Option ℕ → Option ℕ
after_field n none = none
after_field n (some k) = some (n + k)

abbrev pub offset : Field → Layout → Option ℕ
offset f [] = none
offset f ((g, n) ∷ l) = if number g == number f then some 0 else after_field n (offset f l)

-- the end of include/multiboot.h, with words of 4 bytes, and of the other two, with 2 bytes
abbrev pub vbe_words : ℕ → Layout
vbe_words n =
    (vbe_mode, n) ∷ (vbe_interface_seg, n) ∷ (vbe_interface_off, n) ∷ (vbe_interface_len, n) ∷ []

unfoldable pub multiboot_info : Layout
multiboot_info =
    (flags, 4)
    ∷ (mem_lower, 4)
    ∷ (mem_upper, 4)
    ∷ (boot_device, 4)
    ∷ (cmdline, 4)
    ∷ (mods_count, 4)
    ∷ (mods_addr, 4)
    ∷ (syms, 4 * 4)
    ∷ (mmap_length, 4)
    ∷ (mmap_addr, 4)
    ∷ (drives_length, 4)
    ∷ (drives_addr, 4)
    ∷ (config_table, 4)
    ∷ (boot_loader_name, 4)
    ∷ (apm_table, 4)
    ∷ (vbe_control_info, 4)
    ∷ (vbe_mode_info, 4)
    ∷ vbe_words 4

unfoldable pub kernel_multiboot_info : Layout
kernel_multiboot_info =
    (flags, 4)
    ∷ (mem_lower, 4)
    ∷ (mem_upper, 4)
    ∷ (boot_device, 4)
    ∷ (cmdline, 4)
    ∷ (mods_count, 4)
    ∷ (mods_addr, 4)
    ∷ (syms, 4 * 4)
    ∷ (mmap_length, 4)
    ∷ (mmap_addr, 4)
    ∷ (drives_length, 4)
    ∷ (drives_addr, 4)
    ∷ (config_table, 4)
    ∷ (boot_loader_name, 4)
    ∷ (apm_table, 4)
    ∷ (vbe_control_info, 4)
    ∷ (vbe_mode_info, 4)
    ∷ vbe_words 2

-- Its union `u` of two structs of four words stands where the others have `syms`.
unfoldable pub union_multiboot_info : Layout
union_multiboot_info =
    (flags, 4)
    ∷ (mem_lower, 4)
    ∷ (mem_upper, 4)
    ∷ (boot_device, 4)
    ∷ (cmdline, 4)
    ∷ (mods_count, 4)
    ∷ (mods_addr, 4)
    ∷ (syms, 4 * 4)
    ∷ (mmap_length, 4)
    ∷ (mmap_addr, 4)
    ∷ (drives_length, 4)
    ∷ (drives_addr, 4)
    ∷ (config_table, 4)
    ∷ (boot_loader_name, 4)
    ∷ (apm_table, 4)
    ∷ (vbe_control_info, 4)
    ∷ (vbe_mode_info, 4)
    ∷ vbe_words 2

-- that of initrd.c
unfoldable pub initrd_multiboot_info : Layout
initrd_multiboot_info =
    (flags, 4)
    ∷ (mem_lower, 4)
    ∷ (mem_upper, 4)
    ∷ (boot_device, 4)
    ∷ (cmdline, 4)
    ∷ (mods_count, 4)
    ∷ (mods_addr, 4)
    ∷ []

-- a field of 4 bytes at the address `p` of the information
abbrev pub read_at : Bytes → ℕ → Option ℕ → ℕ
read_at mem p none = 0
read_at mem p (some k) = read32 mem (p + k)

unfoldable pub read_field : Layout → Bytes → ℕ → Field → ℕ
read_field l mem p f = read_at mem p (offset f l)

-- what the allocator reads
unfoldable pub read_info : Layout → Bytes → ℕ → MultibootInfo
read_info l mem p = record {
  flags = read_field l mem p flags;
  mem_lower = read_field l mem p mem_lower;
  mem_upper = read_field l mem p mem_upper;
}
