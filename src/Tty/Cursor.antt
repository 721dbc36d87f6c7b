-- ===== src/Tty/Cursor.antt =====
-- Where the cursor of kernel/src/tty.c is, and what is on the screen.
use svetos_kernel.Base.{
  ℕ, ◌+◌, ◌*◌, ◌/◌, ◌%◌, ◌^◌, ◌≤◌, ◌<◌, ◌≡◌, ◌≢◌, inl, inr, refl, List, [], ◌∷◌, ◌==◌, Bool-cases,
  ◌∙◌, arith,
}
use svetos_kernel.Base.Bits.{bit_or-low}
use svetos_kernel.Tty.{
  vga_width, vga_height, vga_entry_color, vga_entry, Tty, next_row, put_cell, terminal_putchar,
  terminal_write,
}

abbrev pub cells : ℕ
cells = vga_height * vga_width

-- The cursor is on the screen.
abbrev pub IsTty : Tty → Type 0
IsTty t = (t.row < vga_height) × (t.column < vga_width)

abbrev pub cursor : Tty → ℕ
cursor t = t.row * vga_width + t.column

-- The low byte of a cell is the character and the high byte its colour; the low half of a colour is
-- the foreground and the high half the background.
pub vga_entry_lem :
    (uc fg bg : ℕ)
    → uc < 2 ^ 8
    → fg < 16
    → bg < 16
    → (vga_entry uc (vga_entry_color fg bg) % 256 ≡ uc)
      × (vga_entry uc (vga_entry_color fg bg) / 256 % 16 ≡ fg)
      × (vga_entry uc (vga_entry_color fg bg) / 4096 ≡ bg)
unfolding vga_entry vga_entry_color
vga_entry_lem uc fg bg u f b = rw (bit_or-low 4 bg fg f) (
    let small : (bg * 16 + fg) % 256 ≡ bg * 16 + fg = omega arith in
    rw small (rw (bit_or-low 8 (bg * 16 + fg) uc u) (omega arith, omega arith, omega arith)))

-- A character other than a newline is written to the cell at the cursor and to no other; the cursor goes to the next cell, after the
-- last one to the first, and stays on the screen.
pub put_cell_lem :
    (c : ℕ) (t : Tty)
    → IsTty t
    → c ≢ 10
    → let t' = terminal_putchar c t in
      IsTty t'
      × (cursor t' ≡ (cursor t + 1) % cells)
      × (t'.buffer (cursor t) ≡ vga_entry c t.color)
      × ((i : ℕ) → i ≢ cursor t → t'.buffer i ≡ t.buffer i)
unfolding terminal_putchar put_cell next_row
put_cell_lem c t v ne = (ground arith, ground arith, ground arith, λ i off. ground arith)

newline-IsTty : (t : Tty) → IsTty t → IsTty (record t { column = 0; row = next_row t.row })
unfolding next_row
newline-IsTty t v = ground arith

terminal_putchar-IsTty :
    (c : ℕ) (t : Tty)
    → IsTty t
    → IsTty (terminal_putchar c t)
      × ((i : ℕ) → cells ≤ i → (terminal_putchar c t).buffer i ≡ t.buffer i)
unfolding terminal_putchar
terminal_putchar-IsTty c t v = elim (Bool-cases (c == 10)) [
  | inl nl ↦ rw nl (newline-IsTty t v, λ i le. refl)
  | inr other ↦
      let ne : c ≢ 10 = ground arith in
      let (v', _, _, kept) = put_cell_lem c t v ne in (v', λ i le. kept i (omega arith))
]

-- Whatever is written, the cursor stays on the screen and no cell outside the screen changes.
pub terminal_write_lem :
    (cs : List ℕ) (t : Tty)
    → IsTty t
    → IsTty (terminal_write cs t)
      × ((i : ℕ) → cells ≤ i → (terminal_write cs t).buffer i ≡ t.buffer i)
unfolding terminal_write
terminal_write_lem [] t v = (v, λ i le. refl)
terminal_write_lem (c ∷ cs) t v =
    let (v', same) = terminal_putchar-IsTty c t v in
    let (v'', same') = terminal_write_lem cs (terminal_putchar c t) v' in
    (v'', λ i le. same' i le ∙ same i le)
