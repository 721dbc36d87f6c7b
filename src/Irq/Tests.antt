-- ===== src/Irq/Tests.antt =====
-- The keyboard's line on a machine that records what is written to its ports.
use svetos_kernel.Base.{ℕ, ◌+◌, ◌<◌, ◌≡◌, ◌≢◌, refl, none, some, List, [], ◌∷◌, replicate, arith}
use svetos_kernel.Base.Int.{pos}
use svetos_kernel.Ports.{Ports}
use svetos_kernel.Messages.{printk}
use svetos_kernel.Irq.{
  custom, Handlers, unhandled, irq_register_handler, irq_unregister_handler, irq_handler,
}
use svetos_kernel.Irq.Dispatch.{Told, irq_register_handler_lem}

abbrev recorder : Ports
recorder = record {
  State = List ℕ;
  inb = λ p s. (0, s);
  inw = λ p s. (0, s);
  outb = λ p v s. v ∷ p ∷ s;
}

abbrev keyboard : List ℕ → List ℕ
keyboard s = 7 ∷ s

abbrev table : Handlers recorder
table = replicate 16 none

irq_register_handler_lem_example :
    let hs' = irq_register_handler recorder (pos 12) (some (custom keyboard)) table in
    Told recorder 12 (some (keyboard [])) (irq_handler recorder 9 (32 + 12) hs' [])
    × ((j : ℕ)
        → j < 16
        → 12 ≢ j
        → irq_handler recorder 9 (32 + j) hs' [] ≡ irq_handler recorder 9 (32 + j) table [])
    × Told recorder 12
        (printk recorder 9 unhandled [])
        (irq_handler recorder 9 (32 + 12) (irq_unregister_handler recorder (pos 12) hs') [])
irq_register_handler_lem_example =
    irq_register_handler_lem recorder 9 12 keyboard table [] refl (omega arith)
