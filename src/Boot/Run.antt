-- ===== src/Boot/Run.antt =====
-- `kernel_main` of kernel/src/kernel.c gets to its idle loop.
use svetos_kernel.Base.{
  ℕ, ◌+◌, ◌-◌, ◌^◌, ◌≤◌, ◌<◌, ◌≡◌, refl, true, none, some, List, [], ◌∷◌, ◌∙◌, ap, length, get_or,
  bit_and, ltb, sub32, ◌==◌, if◌then◌else◌, arith,
}
use svetos_kernel.Ports.{Ports}
use svetos_kernel.Serial.{serial_init}
use svetos_kernel.Serial.Line.{SerialLine, IsQuick, line_bytes, send_all, serial_puts_lem}
use svetos_kernel.Messages.{printk}
use svetos_kernel.Gdt.{init_gdt}
use svetos_kernel.Idt.{Isr, idt_init}
use svetos_kernel.Pic.{pic_remap}
use svetos_kernel.Irq.{default_irq_handler}
use svetos_kernel.Irq.Dispatch.{reset_from-default}
use svetos_kernel.Base.Text.{codes}
use svetos_kernel.Strings.{Bytes}
use svetos_kernel.Multiboot.{multiboot_info, read_info}
use svetos_kernel.Mm.{
  Ptr, MultibootInfo, default_heap_size, block_header, available_memory, page_after,
  actual_heap_size,
}
use svetos_kernel.Mm.Layout.{cell}
use svetos_kernel.Mm.Chain.{IsHeap}
use svetos_kernel.Mm.Init.{mm_init-IsHeap}
use svetos_kernel.Boot.{
  Kernel, Machine, Action, say, port, change, perform, run, after_serial, kernel_main,
}

-- A serial port that is ready once its registers are written as for 8 bits, no parity and one stop
-- bit at 38400 baud, with the divisor behind the latch; nothing goes out meanwhile. The ports below
-- its own leave it alone.
pub record BootLine (P : Ports) (wait : ℕ) : Type 1 where
  pub line : SerialLine P wait
  pub set_up :
      (s : P.State)
      → let t = P.outb 0x3FC 0x0B (
          P.outb 0x3FA 0xC7 (
            P.outb 0x3FB 0x03
              (P.outb 0x3F9 0x00 (P.outb 0x3F8 0x03 (P.outb 0x3FB 0x80 (P.outb 0x3F9 0x00 s)))))) in
        IsQuick P wait line t × (line.sent t ≡ line.sent s)
  pub below_outb :
      (p v : ℕ) (s : P.State)
      → p < 0x3F8
      → IsQuick P wait line s
      → IsQuick P wait line (P.outb p v s) × (line.sent (P.outb p v s) ≡ line.sent s)
  pub below_inb :
      (p : ℕ) (s : P.State)
      → p < 0x3F8
      → IsQuick P wait line s
      → IsQuick P wait line (P.inb p s).1 × (line.sent (P.inb p s).1 ≡ line.sent s)

-- what the start prints, message by message
abbrev pub boot_log : (kernel_end : Ptr) → MultibootInfo → List (List ℕ)
boot_log kernel_end mb =
    codes "SvetOS kernel starting...\n"
    ∷ codes "GDT initialization\n"
    ∷ codes "GDT loaded at 0x%x, limit: 0x%x\n"
    ∷ codes "GDT initialized\n"
    ∷ codes "Initializing IDT...\n"
    ∷ codes "IDT pointer: base=0x%x, limit=0x%x\n"
    ∷ codes "IDT initialization complete\n"
    ∷ codes "IDT initialized\n"
    ∷ codes "PIC remapped and all interrupts masked\n"
    ∷ codes "PIC remapped\n"
    ∷ codes "Initializing IRQ...\n"
    ∷ codes "PIC remapped and all interrupts masked\n"
    ∷ codes "IRQ initialized\n"
    ∷ codes "IRQ initialized\n"
    ∷ codes "Interrupts initialized\n"
    ∷ codes "Initializing memory manager\n"
    ∷ (if bit_and mb.flags 1 == 0
        then codes "No memory info available, assuming %u MB\n"
        else codes "Available memory: %u KB\n")
    ∷ (if ltb (sub32 (available_memory mb) (page_after kernel_end)) default_heap_size
        then codes "Reducing heap size to %u KB due to memory constraints\n"
        else [])
    ∷ codes "Heap: 0x%x - 0x%x (%u KB)\n"
    ∷ codes "Memory manager initialized\n"
    ∷ codes "IPC stub\n"
    ∷ codes "IPC initialized\n"
    ∷ codes "Multiboot modules loader stub - addr: 0x%x\n"
    ∷ codes "Multiboot modules loaded\n"
    ∷ codes "Module manager stub\n"
    ∷ codes "Modules initialized\n"
    ∷ codes "Kernel initialized successfully\n"
    ∷ []

abbrev pub send_messages : List (List ℕ) → List ℕ → List ℕ
send_messages [] out = out
send_messages (msg ∷ rest) out = send_messages rest (send_all (line_bytes msg) out)

module _ (P : Ports) (wait : ℕ) (B : BootLine P wait) where
  abbrev Quick : P.State → Type 0
  Quick s = IsQuick P wait B.line s

  -- a state that was reached from `u` with the line ready and nothing sent
  abbrev Silent : P.State → P.State → Type 0
  Silent u t = Quick t × (B.line.sent t ≡ B.line.sent u)

  out : {p v : ℕ} {u t : P.State} → p < 0x3F8 → Silent u t → Silent u (P.outb p v t)
  out {p} {v} {u} {t} low (q, same) =
      let (q', same') = B.below_outb p v t low q in (q', same' ∙ same)

  read : {p : ℕ} {u t : P.State} → p < 0x3F8 → Silent u t → Silent u (P.inb p t).1
  read {p} {u} {t} low (q, same) = let (q', same') = B.below_inb p t low q in (q', same' ∙ same)

  remap-Silent : (s : P.State) → Quick s → Silent s (pic_remap P 0x20 0x28 s)
  unfolding pic_remap
  remap-Silent s q =
      let first : Silent s (P.inb 0x21 s).1 = read (omega arith) (q, refl) in
      let both : Silent s (P.inb 0xA1 (P.inb 0x21 s).1).1 = read (omega arith) first in
      out (omega arith) (
        out (omega arith) (
          out (omega arith) (
            out (omega arith) (
              out (omega arith) (
                out (omega arith) (
                  out (omega arith) (
                    out (omega arith) (
                      out (omega arith)
                        (out (omega arith) (out (omega arith) (out (omega arith) both)))))))))))

  init-Silent : (s : P.State) → Silent s (serial_init P s)
  unfolding serial_init
  init-Silent s = B.set_up s

  -- The port accesses among the actions leave the serial line alone.
  abbrev AreApart : List (Action P) → Type 0
  AreApart [] = Unit
  AreApart (say msg ∷ rest) = AreApart rest
  AreApart (port f ∷ rest) =
      ((s : P.State) → Quick s → Quick (f s) × (B.line.sent (f s) ≡ B.line.sent s)) × AreApart rest
  AreApart (change f ∷ rest) = AreApart rest

  -- the changes that the actions make, and what they print
  abbrev pub changes : List (Action P) → Kernel P → Kernel P
  changes [] k = k
  changes (say msg ∷ rest) k = changes rest k
  changes (port f ∷ rest) k = changes rest k
  changes (change f ∷ rest) k = changes rest (f k)

  abbrev pub printed : List (Action P) → List ℕ → List ℕ
  printed [] out = out
  printed (say msg ∷ rest) out = printed rest (send_all (line_bytes msg) out)
  printed (port f ∷ rest) out = printed rest out
  printed (change f ∷ rest) out = printed rest out

  run-done :
      (rest : List (Action P)) (m : Machine P)
      → AreApart rest
      → Quick m.io
      → (m' : Machine P) × (run P wait rest m ≡ some m')
        × (m'.kernel ≡ changes rest m.kernel)
        × (B.line.sent m'.io ≡ printed rest (B.line.sent m.io))
        × Quick m'.io
  unfolding run perform printk
  run-done [] m a q = (m, refl, refl, refl, q)
  run-done (say msg ∷ rest) m a q =
      let (t, ran, out, q') = serial_puts_lem P wait B.line msg m.io q in
      let (m', ran', kernel, sent, q'') =
        run-done rest (record { io = t; kernel = m.kernel }) a q' in
      (m', rw ran ran', kernel, sent ∙ ap (printed rest) out, q'')
  run-done (port f ∷ rest) m a q =
      let (q', out) = a.0 m.io q in
      let (m', ran', kernel, sent, q'') = run-done rest (record m { io = f m.io }) a.1 q' in
      (m', ran', kernel, sent ∙ ap (printed rest) out, q'')
  run-done (change f ∷ rest) m a q = run-done rest (record m { kernel = f m.kernel }) a q

  -- On a serial port that is ready once set up, with at least 16 bytes of memory behind the page
  -- after the kernel, a handler table of 16 lines, and no interrupt while it runs, `kernel_main`
  -- gets through all its calls to the idle loop. Then the descriptor tables are as `init_gdt` and
  -- `idt_init` leave them, all 16 lines have the default handler, interrupts are enabled, the heap
  -- is well-formed with one free block, and the serial port has sent the messages of the start, in
  -- their order.
  pub kernel_main-boots :
      (gdt_at : Ptr) (isr : Isr) (kernel_end : Ptr) (mem : Bytes) (mbi_addr : Ptr) (m : Machine P)
      → let mb = read_info multiboot_info mem mbi_addr in
        0 < kernel_end
        → kernel_end + 4095 < 2 ^ 32
        → page_after kernel_end + 16 ≤ available_memory mb
        → length m.kernel.irq_handlers ≡ 16
        → (m' : Machine P) × (kernel_main P wait gdt_at isr kernel_end mem mbi_addr m ≡ some m')
          × (m'.kernel.gdt ≡ init_gdt gdt_at m.kernel.gdt.1)
          × (m'.kernel.idt ≡ idt_init isr m.kernel.idt)
          × ((j : ℕ) → j < 16 → get_or m'.kernel.irq_handlers j none ≡ some default_irq_handler)
          × (m'.kernel.interrupts ≡ true)
          × IsHeap m'.kernel.mm
              (cell (actual_heap_size (page_after kernel_end) mb - block_header) true ∷ [])
          × (B.line.sent m'.io ≡ send_messages (boot_log kernel_end mb) (B.line.sent m.io))
  unfolding kernel_main run perform after_serial
  kernel_main-boots gdt_at isr kernel_end mem mbi_addr m pos small fits long =
      let mb = read_info multiboot_info mem mbi_addr in
      let steps = after_serial P gdt_at isr kernel_end mb in
      let (quick, silent) = init-Silent m.io in
      let (m', ran, kernel, sent, _) =
        run-done steps (record { io = serial_init P m.io; kernel = m.kernel })
          (remap-Silent, (remap-Silent, tt)) quick in
      let heap = (mm_init-IsHeap kernel_end mb m.kernel.mm pos small fits).0 in
      (
        m',
        ran,
        ap (λ (k : Kernel P). k.gdt) kernel,
        ap (λ (k : Kernel P). k.idt) kernel,
        λ j lt.
            ap (λ (k : Kernel P). get_or k.irq_handlers j none) kernel
            ∙ reset_from-default P 16 0 j m.kernel.irq_handlers (omega arith) lt
                (λ before. absurd (omega arith)),
        ap (λ (k : Kernel P). k.interrupts) kernel,
        rw kernel heap,
        sent ∙ ap (send_messages (boot_log kernel_end mb)) silent,
      )
