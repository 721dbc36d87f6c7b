-- ===== src/Tty/Tests.antt =====
-- Runs of the console.
use svetos_kernel.Base.{ℕ, ◌+◌, ◌%◌, ◌≡◌, ◌≢◌, arith}
use svetos_kernel.Tty.{vga_entry, Tty, terminal_putchar}
use svetos_kernel.Tty.Cursor.{cells, IsTty, cursor, put_cell_lem}

-- the cursor in the last cell
abbrev corner : Tty
corner = record { row = 24; column = 79; color = 7; buffer = λ _. 0 }

corner-IsTty : IsTty corner
corner-IsTty = (omega arith, omega arith)

put_cell_lem_example :
    let t' = terminal_putchar 65 corner in
    IsTty t'
    × (cursor t' ≡ (cursor corner + 1) % cells)
    × (t'.buffer (cursor corner) ≡ vga_entry 65 corner.color)
    × ((i : ℕ) → i ≢ cursor corner → t'.buffer i ≡ corner.buffer i)
put_cell_lem_example = put_cell_lem 65 corner corner-IsTty (omega arith)
