-- ===== src/Gdt.antt =====
-- The segment descriptors of kernel/src/gdt/gdt.c and include/kernel/gdt.h.
pub mod Decode
use svetos_kernel.Base.{ℕ, ◌+◌, ◌-◌, ◌*◌, List, [], ◌∷◌, bit_and, bit_or, ◌>>>◌, set, replicate}

-- `gdt_entry_t`
pub record GdtEntry : Type 0 where
  pub limit_low : ℕ
  pub base_low : ℕ
  pub base_middle : ℕ
  pub access : ℕ
  pub granularity : ℕ
  pub base_high : ℕ

-- `gdt_ptr_t`
pub record GdtPtr : Type 0 where
  pub limit : ℕ
  pub base : ℕ

-- the fields that `gdt_set_gate` writes
unfoldable pub gdt_entry : (base limit access gran : ℕ) → GdtEntry
gdt_entry base limit access gran = record {
  limit_low = bit_and limit 0xFFFF;
  base_low = bit_and base 0xFFFF;
  base_middle = bit_and (base >>> 16) 0xFF;
  access = access;
  granularity = bit_or (bit_and (limit >>> 16) 0x0F) (bit_and gran 0xF0);
  base_high = bit_and (base >>> 24) 0xFF;
}

unfoldable pub gdt_set_gate : (num base limit access gran : ℕ) → List GdtEntry → List GdtEntry
gdt_set_gate num base limit access gran entries = set entries num (gdt_entry base limit access gran)

-- `init_gdt`: the table at the address `at`, and what is passed to `gdt_flush`
unfoldable pub init_gdt : ℕ → List GdtEntry → GdtPtr × List GdtEntry
init_gdt at entries = (
  record { limit = 8 * 3 - 1; base = at },
  gdt_set_gate 2 0 0xFFFF_FFFF 0x92 0xCF
      (gdt_set_gate 1 0 0xFFFF_FFFF 0x9A 0xCF (gdt_set_gate 0 0 0 0 0 entries)),
)
