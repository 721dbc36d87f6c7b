-- ===== src/Idt.antt =====
-- The interrupt descriptors of kernel/src/interrupts/idt.c and include/kernel/interrupts/idt.h.
pub mod Decode
mod Tests
use svetos_kernel.Base.{ℕ, ◌+◌, ◌-◌, ◌*◌, List, [], ◌∷◌, bit_and, ◌>>>◌, set, replicate, u32}

-- `struct idt_entry`
pub record IdtEntry : Type 0 where
  pub base_low : ℕ
  pub sel : ℕ
  pub always0 : ℕ
  pub flags : ℕ
  pub base_high : ℕ

-- the fields that `idt_set_gate` writes
unfoldable pub idt_entry : (base sel flags : ℕ) → IdtEntry
idt_entry base sel flags = record {
  base_low = bit_and base 0xFFFF;
  sel = sel;
  always0 = 0;
  flags = flags;
  base_high = bit_and (base >>> 16) 0xFFFF;
}

unfoldable pub idt_set_gate : (num base sel flags : ℕ) → List IdtEntry → List IdtEntry
idt_set_gate num base sel flags entries = set entries num (idt_entry base sel flags)

-- the addresses of the assembly routines `isr0` and so on
pub record Isr : Type 0 where
  pub isr0 : ℕ
  pub isr6 : ℕ
  pub isr8 : ℕ
  pub isr13 : ℕ
  pub isr14 : ℕ

-- the loop that clears the table
unfoldable pub clear_idt : List IdtEntry → List IdtEntry
clear_idt [] = []
clear_idt (x ∷ xs) =
    record { base_low = 0; sel = 0; always0 = 0; flags = 0; base_high = 0 } ∷ clear_idt xs

-- the table that `idt_init` loads
unfoldable pub idt_init : Isr → List IdtEntry → List IdtEntry
idt_init isr entries = idt_set_gate 14 isr.isr14 0x08 0x8E (
    idt_set_gate 13 isr.isr13 0x08 0x8E (
      idt_set_gate 8 isr.isr8 0x08 0x8E (
        idt_set_gate 6 isr.isr6 0x08 0x8E (idt_set_gate 0 isr.isr0 0x08 0x8E (clear_idt entries)))))
