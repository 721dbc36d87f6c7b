-- ===== src/Irq/Dispatch.antt =====
-- Which handler an interrupt runs, kernel/src/interrupts/irq.c.
use mathlib.Core.Option
use svetos_kernel.Base.{
  ℕ, zero, suc, ◌+◌, ◌-◌, ◌≤◌, ◌<◌, ◌≡◌, ◌≢◌, inl, inr, refl, true, false, Option, none, some, ◌==◌,
  ltb, leb, set, get_or, length, ap, sym, ◌∙◌, u8, sub32, Bool-cases, length-set, get_or-set_self,
  get_or-set_ne, arith,
}
use svetos_kernel.Base.Int.{pos}
use svetos_kernel.Ports.{Ports}
use svetos_kernel.Messages.{printk}
use svetos_kernel.Pic.{pic_send_eoi}
use svetos_kernel.Irq.{
  Handler, default_irq_handler, custom, Handlers, unhandled, call_handler, irq_register_handler,
  irq_unregister_handler, irq_handler, reset_from,
}

module _ (P : Ports) where
  -- what the controllers are told at the end of an interrupt of the line: 0x20 to the first one's
  -- command port, and for the lines from 8 on to the second one's before
  abbrev pub Told : (irq : ℕ) → Option P.State → Option P.State → Type 0
  Told irq ran o =
      (irq < 8 → o ≡ Option.map (P.outb 0x20 0x20) ran)
      × (8 ≤ irq → o ≡ Option.map (λ s. P.outb 0x20 0x20 (P.outb 0xA0 0x20 s)) ran)

  dispatch_line :
      (fuel irq : ℕ) (hs : Handlers P) (s : P.State)
      → irq < 16
      → irq_handler P fuel (32 + irq) hs s
        ≡ Option.map (pic_send_eoi P irq) (call_handler P fuel (get_or hs irq none) s)
  unfolding irq_handler
  dispatch_line fuel irq hs s lt =
      let low : leb 32 (32 + irq) ≡ true = ground arith in
      let high : ltb (32 + irq) 48 ≡ true = ground arith in
      let back : 32 + irq - 32 ≡ irq = omega arith in
      let eoi : u8 (sub32 (32 + irq) 32) ≡ irq = omega arith in rw (low, high, back, eoi)

  eoi-Told : (irq : ℕ) (o : Option P.State) → Told irq o (Option.map (pic_send_eoi P irq) o)
  unfolding pic_send_eoi
  eoi-Told irq none = (λ lt. refl, λ le. refl)
  eoi-Told irq (some s) = (
    λ lt. let first : leb 8 irq ≡ false = ground arith in rw (pic_send_eoi, first) refl,
    λ le. let second : leb 8 irq ≡ true = ground arith in rw (pic_send_eoi, second) refl,
  )

  runs-Told :
      (fuel irq : ℕ) (hs : Handlers P) (s : P.State) (h : Option (Handler P))
      → irq < 16
      → get_or hs irq none ≡ h
      → Told irq (call_handler P fuel h s) (irq_handler P fuel (32 + irq) hs s)
  runs-Told fuel irq hs s h lt e =
      rw (dispatch_line fuel irq hs s lt, e) (eoi-Told irq (call_handler P fuel h s))

  -- A handler that is registered for a line below 16 runs when the line's interrupt comes, and then
  -- 0x20 goes to port 0x20, and for the lines from 8 on to port 0xA0 before. The other lines keep
  -- what they ran. Once the line is unregistered, its interrupt prints the message of the default
  -- handler and is acknowledged alike.
  pub irq_register_handler_lem :
      (fuel irq : ℕ) (h : P.State → P.State) (hs : Handlers P) (s : P.State)
      → length hs ≡ 16
      → irq < 16
      → let hs' = irq_register_handler P (pos irq) (some (custom h)) hs in
        Told irq (some (h s)) (irq_handler P fuel (32 + irq) hs' s)
        × ((j : ℕ)
            → j < 16
            → irq ≢ j
            → irq_handler P fuel (32 + j) hs' s ≡ irq_handler P fuel (32 + j) hs s)
        × Told irq
            (printk P fuel unhandled s)
            (irq_handler P fuel (32 + irq) (irq_unregister_handler P (pos irq) hs') s)
  unfolding irq_register_handler irq_unregister_handler
  irq_register_handler_lem fuel irq h hs s long lt =
      let here : ltb irq 16 ≡ true = ground arith in
      let hs' = set hs irq (some (custom h)) in
      let long' = length-set hs irq (some (custom h)) in
      rw here (
        runs-Told fuel irq hs' s (some (custom h)) lt
            (get_or-set_self hs irq (some (custom h)) none (omega arith)),
        λ j l ne.
            dispatch_line fuel j hs' s l
            ∙ ap (λ o. Option.map (pic_send_eoi P j) (call_handler P fuel o s))
                (get_or-set_ne hs irq j (some (custom h)) none ne)
            ∙ sym (dispatch_line fuel j hs s l),
        runs-Told fuel irq (set hs' irq (some default_irq_handler)) s (some default_irq_handler) lt
            (get_or-set_self hs' irq (some default_irq_handler) none (omega (arith, long'))),
      )

  -- The loop of `irq_init` sets the lines from `i` on, and no other.
  pub reset_from-default :
      (left i j : ℕ) (hs : Handlers P)
      → i + left ≤ length hs
      → j < i + left
      → (j < i → get_or hs j none ≡ some default_irq_handler)
      → get_or (reset_from P left i hs) j none ≡ some default_irq_handler
  unfolding reset_from
  reset_from-default zero i j hs le lt h = h (omega arith)
  reset_from-default (suc left) i j hs le lt h =
      let long = length-set hs i (some default_irq_handler) in
      reset_from-default left (i + 1) j (set hs i (some default_irq_handler)) (omega (arith, long))
        (omega arith)
        λ before. elim (Bool-cases (i == j)) [
          | inl hit ↦
              let same : i ≡ j = ground arith in
              ap (λ k. get_or (set hs i (some default_irq_handler)) k none) (sym same)
              ∙ get_or-set_self hs i (some default_irq_handler) none (omega arith)
          | inr miss ↦
              get_or-set_ne hs i j (some default_irq_handler) none (ground arith) ∙ h (ground arith)
        ]
