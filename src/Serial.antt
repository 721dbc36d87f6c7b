-- ===== src/Serial.antt =====
-- The serial port, kernel/src/hal/serial.c, over `Ports`. The loops that wait for the port run on
-- fuel: `none` means that they were cut off. A string is the list of its bytes.
pub mod Line
pub mod Example
mod Tests
use svetos_kernel.Base.{
  ℕ, zero, suc, ◌+◌, Bool, true, false, not, Option, none, some, List, [], ◌∷◌, ◌==◌, if◌then◌else◌,
  bit_and,
}
use svetos_kernel.Ports.{Ports}

abbrev pub com1 : ℕ
com1 = 0x3F8

-- the line status register
abbrev pub com1_status : ℕ
com1_status = 0x3FD

module _ (P : Ports) where
  open P use {State, inb, outb}

  unfoldable pub serial_init : State → State
  serial_init s = outb 0x3FC 0x0B (
      outb 0x3FA 0xC7
        (outb 0x3FB 0x03 (outb 0x3F9 0x00 (outb com1 0x03 (outb 0x3FB 0x80 (outb 0x3F9 0x00 s))))))

  unfoldable pub serial_is_ready : State → Bool × State
  serial_is_ready s = let (v, s') = inb com1_status s in (not (bit_and v 0x20 == 0), s')

  unfoldable pub serial_write : ℕ → ℕ → State → Option State
  serial_write zero c s = none
  serial_write (suc fuel) c s =
      let (ready, s') = serial_is_ready s in
      let rest = serial_write fuel c s' in if ready then some (outb com1 c s') else rest

  -- one call after another
  abbrev pub and_then : Option State → (State → Option State) → Option State
  and_then none k = none
  and_then (some s) k = k s

  unfoldable pub serial_putc : ℕ → ℕ → State → Option State
  serial_putc fuel c s =
      if c == 10
      then and_then (serial_write fuel 13 s) (serial_write fuel c)
      else serial_write fuel c s

  unfoldable pub serial_puts : ℕ → List ℕ → State → Option State
  serial_puts fuel [] s = some s
  serial_puts fuel (c ∷ cs) s = and_then (serial_putc fuel c s) (serial_puts fuel cs)

  unfoldable pub serial_received : State → Bool × State
  serial_received s = let (v, s') = inb com1_status s in (not (bit_and v 1 == 0), s')

  unfoldable pub serial_read : ℕ → State → Option (ℕ × State)
  serial_read zero s = none
  serial_read (suc fuel) s =
      let (received, s') = serial_received s in
      let rest = serial_read fuel s' in if received then some (inb com1 s') else rest
