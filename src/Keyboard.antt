-- ===== src/Keyboard.antt =====
-- The keyboard driver modules/drivers/core/keyboard/keyboard.c, and the table of handlers that it
-- registers with, kernel/src/interrupts/irq_handlers.c. A handler acts on the machine and yields
-- the codes that it prints.
pub mod Lines
mod Tests
use svetos_kernel.Base.{
  ℕ, Bool, Option, none, some, List, [], ◌∷◌, ◌==◌, ltb, if◌then◌else◌, bit_and, set, replicate,
}
use svetos_kernel.Ports.{Ports}

abbrev pub keyboard_data_port : ℕ
keyboard_data_port = 0x60

abbrev pub keyboard_status_port : ℕ
keyboard_status_port = 0x64

module _ (P : Ports) where
  open P use {State, inb}

  abbrev pub Handler : Type 0
  Handler = State → List ℕ × State

  -- `irq_handlers` of irq_handlers.c, null at first
  abbrev pub Handlers : Type 0
  Handlers = List (Option Handler)

  abbrev pub no_handlers : Handlers
  no_handlers = replicate 16 none

  unfoldable pub register_irq_handler : ℕ → Option Handler → Handlers → Handlers
  register_irq_handler irq handler hs = if ltb irq 16 then set hs irq handler else hs

  unfoldable pub keyboard_handler : Handler
  keyboard_handler s =
      let (status, s') = inb keyboard_status_port s in
      let (keycode, s'') = inb keyboard_data_port s' in
      if bit_and status 1 == 0 then ([], s') else (keycode ∷ [], s'')

  unfoldable pub keyboard_init : Handlers → ℕ × Handlers
  unfolding register_irq_handler
  keyboard_init hs = (0, register_irq_handler 1 (some keyboard_handler) hs)

  unfoldable pub keyboard_exit : Handlers → Handlers
  unfolding register_irq_handler
  keyboard_exit hs = register_irq_handler 1 none hs
