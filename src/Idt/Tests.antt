-- ===== src/Idt/Tests.antt =====
-- The table after start-up.
use svetos_kernel.Base.{ℕ, ◌%◌, ◌/◌, ◌^◌, ◌<◌, none, some, ◌≡◌, refl, get_or, replicate}
use svetos_kernel.Idt.{Isr, idt_init}
use svetos_kernel.Idt.Decode.{absent, handler_of, idt_init_lem}

abbrev routines : Isr
routines = record {
  isr0 = 0x10_0000;
  isr6 = 0x10_0100;
  isr8 = 0x10_0200;
  isr13 = 0x10_0300;
  isr14 = 0x10_0400;
}

idt_init_lem_example :
    let e = get_or (idt_init routines (replicate 256 absent)) 13 absent in
    (handler_of routines 13 ≡ none → e ≡ absent)
    × ((routine : ℕ)
        → handler_of routines 13 ≡ some routine
        → routine < 2 ^ 32
        → (e.base_low ≡ routine % 2 ^ 16)
          × (e.base_high ≡ routine / 2 ^ 16)
          × (e.sel ≡ 8)
          × (e.always0 ≡ 0)
          × (e.flags ≡ 0x8E))
idt_init_lem_example = idt_init_lem routines (replicate 256 absent) 13 refl
