-- ===== src/Tty.antt =====
-- The text console, kernel/src/tty.c, and the colours of kernel/src/vga.c. `terminal_buffer` is
-- the memory from 0xB8000, by cells of 16 bits.
pub mod Cursor
mod Tests
use svetos_kernel.Base.{
  ℕ, zero, suc, ◌+◌, ◌*◌, ◌<◌, Bool, true, false, List, [], ◌∷◌, ltb, ◌==◌, if◌then◌else◌, bit_or,
  u8, u16, ◌<<<◌,
}

abbrev pub vga_width : ℕ
vga_width = 80

abbrev pub vga_height : ℕ
vga_height = 25

abbrev pub light_grey : ℕ
light_grey = 7

abbrev pub black : ℕ
black = 0

-- `fg | bg << 4`, cut to a byte
unfoldable pub vga_entry_color : (fg bg : ℕ) → ℕ
vga_entry_color fg bg = u8 (bit_or fg (bg <<< 4))

-- `uc | color << 8`, of two bytes
unfoldable pub vga_entry : (uc color : ℕ) → ℕ
vga_entry uc color = u16 (bit_or uc (color <<< 8))

-- the file's variables
pub record Tty : Type 0 where
  pub row : ℕ
  pub column : ℕ
  pub color : ℕ
  pub buffer : ℕ → ℕ

-- `++terminal_row`, back to the top at the bottom
unfoldable pub next_row : ℕ → ℕ
next_row row = if row + 1 == vga_height then 0 else row + 1

-- the two loops of `tty_init` write every cell of the screen
unfoldable pub tty_init : Tty → Tty
tty_init t =
    let color = vga_entry_color light_grey black in
    record {
      row = 0;
      column = 0;
      color = color;
      buffer = λ i. if ltb i (vga_height * vga_width) then vga_entry 32 color else t.buffer i;
    }

unfoldable pub terminal_set_color : (fg bg : ℕ) → Tty → Tty
terminal_set_color fg bg t = record t { color = vga_entry_color fg bg }

-- the cell at the cursor, then the cursor's step; `c` is the byte of the character
unfoldable pub put_cell : ℕ → Tty → Tty
put_cell c t =
    let index = t.row * vga_width + t.column in
    record t {
      buffer = λ i. if i == index then vga_entry c t.color else t.buffer i;
      column = if t.column + 1 == vga_width then 0 else t.column + 1;
      row = if t.column + 1 == vga_width then next_row t.row else t.row;
    }

unfoldable pub terminal_putchar : ℕ → Tty → Tty
terminal_putchar c t =
    if c == 10 then record t { column = 0; row = next_row t.row } else put_cell c t

unfoldable pub terminal_write : List ℕ → Tty → Tty
terminal_write [] t = t
terminal_write (c ∷ cs) t = terminal_write cs (terminal_putchar c t)
