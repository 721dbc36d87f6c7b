-- ===== src/Gdt/Decode.antt =====
-- What the processor reads out of a descriptor that kernel/src/gdt/gdt.c has written.
use svetos_kernel.Base.{ℕ, ◌+◌, ◌*◌, ◌/◌, ◌%◌, ◌^◌, ◌<◌, ◌≡◌, refl, bit_and, arith}
use svetos_kernel.Base.Bits.{bit_and-mask, bit_and-shifted, bit_or-low}
use svetos_kernel.Gdt.{GdtEntry, gdt_entry}

-- base address, limit and flags by the layout of the processor's manual
abbrev pub base_of : GdtEntry → ℕ
base_of e = e.base_low + e.base_middle * 2 ^ 16 + e.base_high * 2 ^ 24

abbrev pub limit_of : GdtEntry → ℕ
limit_of e = e.limit_low + e.granularity % 16 * 2 ^ 16

abbrev pub flags_of : GdtEntry → ℕ
flags_of e = e.granularity / 16

-- A descriptor gives back its base, the low 20 bits of its limit, its access byte and the high half
-- of its granularity.
pub gdt_entry_lem :
    (base limit access gran : ℕ)
    → base < 2 ^ 32
    → limit < 2 ^ 32
    → gran < 2 ^ 8
    → let e = gdt_entry base limit access gran in
      (base_of e ≡ base)
      × (limit_of e ≡ limit % 2 ^ 20)
      × (e.access ≡ access)
      × (flags_of e ≡ gran / 16)
unfolding gdt_entry
gdt_entry_lem base limit access gran b l g =
    let low : bit_and limit 0xFFFF ≡ limit % 2 ^ 16 = bit_and-mask 16 limit in
    let high : bit_and (limit / 2 ^ 16) 0x0F ≡ limit / 2 ^ 16 % 2 ^ 4 =
      bit_and-mask 4 (limit / 2 ^ 16) in
    let b0 : bit_and base 0xFFFF ≡ base % 2 ^ 16 = bit_and-mask 16 base in
    let b1 : bit_and (base / 2 ^ 16) 0xFF ≡ base / 2 ^ 16 % 2 ^ 8 =
      bit_and-mask 8 (base / 2 ^ 16) in
    let b2 : bit_and (base / 2 ^ 24) 0xFF ≡ base / 2 ^ 24 % 2 ^ 8 =
      bit_and-mask 8 (base / 2 ^ 24) in
    let f : bit_and gran 0xF0 ≡ bit_and (gran / 2 ^ 4) 15 * 2 ^ 4 = bit_and-shifted 4 gran 15 in
    let f' : bit_and (gran / 2 ^ 4) 15 ≡ gran / 2 ^ 4 % 2 ^ 4 = bit_and-mask 4 (gran / 2 ^ 4) in
    rw (low, high, b0, b1, b2, f, f')
      (rw (bit_or-low 4 (gran / 2 ^ 4 % 2 ^ 4) (limit / 2 ^ 16 % 2 ^ 4) (omega arith))
        (omega arith, omega arith, refl, omega arith))
