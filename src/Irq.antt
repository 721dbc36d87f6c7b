-- ===== src/Irq.antt =====
-- The table of interrupt handlers, kernel/src/interrupts/irq.c. A null pointer in the table is
-- `none`. A handler acts on the machine; the default one prints, over `Messages`. `none` as a
-- result: the wait for the serial port was cut off by the fuel.
pub mod Dispatch
mod Tests
use mathlib.Core.Option
use svetos_kernel.Base.{
  ℕ, zero, suc, ◌+◌, ◌-◌, ◌<◌, Bool, true, false, ◌&&◌, Option, none, some, List, ltb, leb,
  if◌then◌else◌, set, get_or, u8, sub32,
}
use svetos_kernel.Base.Int.{ℤ, pos, negsuc}
use svetos_kernel.Base.Text.{codes}
use svetos_kernel.Ports.{Ports}
use svetos_kernel.Messages.{printk}
use svetos_kernel.Pic.{pic_send_eoi, pic_remap}

abbrev pub unhandled : List ℕ
unhandled = codes "Unhandled IRQ occurred!\n"

module _ (P : Ports) where
  pub data Handler : Type 0 where
    default_irq_handler : Handler
    custom : (P.State → P.State) → Handler

  -- `irq_handlers`
  abbrev pub Handlers : Type 0
  Handlers = List (Option Handler)

  unfoldable pub irq_register_handler : ℤ → Option Handler → Handlers → Handlers
  irq_register_handler (pos irq) handler hs = if ltb irq 16 then set hs irq handler else hs
  irq_register_handler (negsuc irq) handler hs = hs

  unfoldable pub irq_unregister_handler : ℤ → Handlers → Handlers
  irq_unregister_handler (pos irq) hs =
      if ltb irq 16 then set hs irq (some default_irq_handler) else hs
  irq_unregister_handler (negsuc irq) hs = hs

  abbrev pub call_handler : (fuel : ℕ) → Option Handler → P.State → Option P.State
  call_handler fuel none s = some s
  call_handler fuel (some default_irq_handler) s = printk P fuel unhandled s
  call_handler fuel (some (custom h)) s = some (h s)

  -- `irq_handler` at the number of the interrupt's frame
  unfoldable pub irq_handler : (fuel int_no : ℕ) → Handlers → P.State → Option P.State
  irq_handler fuel int_no hs s = Option.map (pic_send_eoi P (u8 (sub32 int_no 32))) (
      if leb 32 int_no && ltb int_no 48
      then call_handler fuel (get_or hs (int_no - 32) none) s
      else some s)

  -- the loop of `irq_init` at index `i`, with `left` rounds to go
  unfoldable pub reset_from : (left i : ℕ) → Handlers → Handlers
  reset_from zero i hs = hs
  reset_from (suc left) i hs = reset_from left (i + 1) (set hs i (some default_irq_handler))
