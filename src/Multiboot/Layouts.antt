-- ===== src/Multiboot/Layouts.antt =====
-- Where the declarations of `multiboot_info_t` agree.
use svetos_kernel.Base.{ℕ, ◌<◌, ◌≡◌, ◌↔◌, refl, some, ap, sym, arith}
use svetos_kernel.Strings.{Bytes}
use svetos_kernel.Multiboot.{
  Field, flags, mem_lower, mem_upper, boot_device, cmdline, mods_count, mods_addr, syms,
  mmap_length, mmap_addr, drives_length, drives_addr, config_table, boot_loader_name, apm_table,
  vbe_control_info, vbe_mode_info, vbe_mode, vbe_interface_seg, vbe_interface_off,
  vbe_interface_len, number, offset, multiboot_info, kernel_multiboot_info, union_multiboot_info,
  initrd_multiboot_info, read_at, read_field,
}

some-injective : {a b : ℕ} → some a ≡ some b → a ≡ b
some-injective e = ground arith

-- what the declarations say of a field
abbrev Agree : Field → Type 0
Agree f =
    (offset f kernel_multiboot_info ≡ offset f union_multiboot_info)
    × ((offset f multiboot_info ≡ offset f kernel_multiboot_info) ↔ number f < 18)
    × (number f < 7 → offset f initrd_multiboot_info ≡ offset f multiboot_info)

agree : (f : Field) → Agree f
unfolding kernel_multiboot_info union_multiboot_info multiboot_info initrd_multiboot_info
agree flags = (refl, (λ e. omega arith, λ lt. refl), λ lt. refl)
agree mem_lower = (refl, (λ e. omega arith, λ lt. refl), λ lt. refl)
agree mem_upper = (refl, (λ e. omega arith, λ lt. refl), λ lt. refl)
agree boot_device = (refl, (λ e. omega arith, λ lt. refl), λ lt. refl)
agree cmdline = (refl, (λ e. omega arith, λ lt. refl), λ lt. refl)
agree mods_count = (refl, (λ e. omega arith, λ lt. refl), λ lt. refl)
agree mods_addr = (refl, (λ e. omega arith, λ lt. refl), λ lt. refl)
agree syms = (refl, (λ e. omega arith, λ lt. refl), λ lt. absurd (omega arith))
agree mmap_length = (refl, (λ e. omega arith, λ lt. refl), λ lt. absurd (omega arith))
agree mmap_addr = (refl, (λ e. omega arith, λ lt. refl), λ lt. absurd (omega arith))
agree drives_length = (refl, (λ e. omega arith, λ lt. refl), λ lt. absurd (omega arith))
agree drives_addr = (refl, (λ e. omega arith, λ lt. refl), λ lt. absurd (omega arith))
agree config_table = (refl, (λ e. omega arith, λ lt. refl), λ lt. absurd (omega arith))
agree boot_loader_name = (refl, (λ e. omega arith, λ lt. refl), λ lt. absurd (omega arith))
agree apm_table = (refl, (λ e. omega arith, λ lt. refl), λ lt. absurd (omega arith))
agree vbe_control_info = (refl, (λ e. omega arith, λ lt. refl), λ lt. absurd (omega arith))
agree vbe_mode_info = (refl, (λ e. omega arith, λ lt. refl), λ lt. absurd (omega arith))
agree vbe_mode = (refl, (λ e. omega arith, λ lt. refl), λ lt. absurd (omega arith))
agree vbe_interface_seg = (
  refl,
  (λ e. absurd (omega (arith, some-injective e)), λ lt. absurd (omega arith)),
  λ lt. absurd (omega arith),
)
agree vbe_interface_off = (
  refl,
  (λ e. absurd (omega (arith, some-injective e)), λ lt. absurd (omega arith)),
  λ lt. absurd (omega arith),
)
agree vbe_interface_len = (
  refl,
  (λ e. absurd (omega (arith, some-injective e)), λ lt. absurd (omega arith)),
  λ lt. absurd (omega arith),
)

-- In the four declarations the first seven fields, which are all that the kernel reads, lie at the
-- same place, so a read through any of them gives the same. The two in the kernel's own folders
-- agree on every field; that of include/multiboot.h agrees with them exactly up to `vbe_mode`, and
-- has the three fields behind it further back.
pub layouts-agree :
    (f : Field) (mem : Bytes) (p : ℕ)
    → (offset f kernel_multiboot_info ≡ offset f union_multiboot_info)
      × ((offset f multiboot_info ≡ offset f kernel_multiboot_info) ↔ number f < 18)
      × (number f < 7
          → (read_field initrd_multiboot_info mem p f ≡ read_field multiboot_info mem p f)
            × (read_field kernel_multiboot_info mem p f ≡ read_field multiboot_info mem p f))
unfolding read_field
layouts-agree f mem p =
    let (same, upto, short) = agree f in
    (
      same,
      upto,
      λ lt. (ap (read_at mem p) (short lt), ap (read_at mem p) (sym (upto.1 (omega arith)))),
    )
