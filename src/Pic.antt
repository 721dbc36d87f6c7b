-- ===== src/Pic.antt =====
-- The interrupt controllers, kernel/src/interrupts/pic.c and include/kernel/interrupts/pic.h.
pub mod Mask
pub mod Device
mod Tests
use svetos_kernel.Base.{
  ℕ, ◌+◌, ◌-◌, ◌*◌, Bool, true, false, ltb, leb, if◌then◌else◌, bit_and, bit_or, not32, u8, ◌<<<◌,
}
use svetos_kernel.Ports.{Ports}

abbrev pub pic1_command : ℕ
pic1_command = 0x20

abbrev pub pic1_data : ℕ
pic1_data = 0x21

abbrev pub pic2_command : ℕ
pic2_command = 0xA0

abbrev pub pic2_data : ℕ
pic2_data = 0xA1

abbrev pub pic_eoi : ℕ
pic_eoi = 0x20

-- the port and the line within it that an interrupt line stands for
abbrev pub data_port : ℕ → ℕ
data_port irq_line = if ltb irq_line 8 then pic1_data else pic2_data

abbrev pub line_within : ℕ → ℕ
line_within irq_line = if ltb irq_line 8 then irq_line else irq_line - 8

module _ (P : Ports) where
  open P use {State, inb, outb}

  -- the eight initialisation words of `pic_remap`, `ICW1_INIT | ICW1_ICW4` first
  abbrev pub icw : (offset1 offset2 : ℕ) → State → State
  icw offset1 offset2 s = outb pic2_data 1 (
      outb pic1_data 1 (
        outb pic2_data 2 (
          outb pic1_data 4 (
            outb pic2_data offset2
              (outb pic1_data offset1 (outb pic2_command 0x11 (outb pic1_command 0x11 s)))))))

  -- `pic_remap`: the masks that it has read it writes back, and then masks every line
  unfoldable pub pic_remap : (offset1 offset2 : ℕ) → State → State
  pic_remap offset1 offset2 s =
      let (a1, s1) = inb pic1_data s in
      let (a2, s2) = inb pic2_data s1 in
      outb pic2_data 0xFF
        (outb pic1_data 0xFF (outb pic2_data a2 (outb pic1_data a1 (icw offset1 offset2 s2))))

  unfoldable pub pic_set_mask : ℕ → State → State
  pic_set_mask irq_line s =
      let (v, s') = inb (data_port irq_line) s in
      outb (data_port irq_line) (u8 (bit_or v (1 <<< line_within irq_line))) s'

  unfoldable pub pic_clear_mask : ℕ → State → State
  pic_clear_mask irq_line s =
      let (v, s') = inb (data_port irq_line) s in
      outb (data_port irq_line) (u8 (bit_and v (not32 (1 <<< line_within irq_line)))) s'

  unfoldable pub pic_send_eoi : ℕ → State → State
  pic_send_eoi irq s =
      outb pic1_command pic_eoi (if leb 8 irq then outb pic2_command pic_eoi s else s)
