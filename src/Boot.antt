-- ===== src/Boot.antt =====
-- The start of the kernel, `kernel_main` of kernel/src/kernel.c, as the actions of the calls that it
-- makes, in their order and with what they print. It does not return: the machine that results is
-- the one on which the loop of `hlt` begins. No interrupt arrives in the meantime.
pub mod Run
mod Tests
use svetos_kernel.Base.{
  ℕ, ◌+◌, ◌-◌, ◌*◌, Bool, true, false, Option, none, some, List, [], ◌∷◌, ◌++◌, ◌==◌, ltb, bit_and,
  sub32, if◌then◌else◌, replicate,
}
use svetos_kernel.Base.Text.{codes}
use svetos_kernel.Ports.{Ports}
use svetos_kernel.Serial.{serial_init}
use svetos_kernel.Messages.{printk}
use svetos_kernel.Gdt.{GdtEntry, GdtPtr, init_gdt}
use svetos_kernel.Idt.{IdtEntry, Isr, idt_init}
use svetos_kernel.Strings.{Bytes}
use svetos_kernel.Multiboot.{multiboot_info, read_info}
use svetos_kernel.Pic.{pic_remap}
use svetos_kernel.Irq.{Handlers, reset_from}
use svetos_kernel.Mm.{
  Ptr, MultibootInfo, Mm, default_heap_size, available_memory, page_after, mm_init,
}

module _ (P : Ports) where
  -- the tables and the heap, and whether interrupts are enabled
  pub record Kernel : Type 0 where
    pub gdt : GdtPtr × List GdtEntry
    pub idt : List IdtEntry
    pub irq_handlers : Handlers P
    pub mm : Mm
    pub interrupts : Bool

  pub record Machine : Type 0 where
    pub io : P.State
    pub kernel : Kernel

  -- a message, port accesses, or a change of the kernel's variables
  pub data Action : Type 0 where
    say : List ℕ → Action
    port : (P.State → P.State) → Action
    change : (Kernel → Kernel) → Action

  abbrev pub said : Option P.State → Kernel → Option Machine
  said none k = none
  said (some t) k = some (record { io = t; kernel = k })

  -- `fuel` bounds the waiting for the serial port; `none`: it was cut off
  unfoldable pub perform : ℕ → Action → Machine → Option Machine
  perform fuel (say msg) m = said (printk P fuel msg m.io) m.kernel
  perform fuel (port f) m = some (record m { io = f m.io })
  perform fuel (change f) m = some (record m { kernel = f m.kernel })

  abbrev pub and_then : Option Machine → (Machine → Option Machine) → Option Machine
  and_then none k = none
  and_then (some m) k = k m

  unfoldable pub run : ℕ → List Action → Machine → Option Machine
  run fuel [] m = some m
  run fuel (a ∷ rest) m = and_then (perform fuel a m) (run fuel rest)

  abbrev pub remap_actions : List Action
  remap_actions =
      port (pic_remap P 0x20 0x28) ∷ say (codes "PIC remapped and all interrupts masked\n") ∷ []

  -- `gdt_init`, with its table at the given address
  abbrev pub gdt_actions : Ptr → List Action
  gdt_actions at =
      say (codes "GDT initialization\n")
      ∷ change (λ k. record k { gdt = init_gdt at k.gdt.1 })
      ∷ say (codes "GDT loaded at 0x%x, limit: 0x%x\n")
      ∷ []

  -- `idt_init`, from `cli` to `sti`
  abbrev pub idt_actions : Isr → List Action
  idt_actions isr =
      change (λ k. record k { interrupts = false })
      ∷ say (codes "Initializing IDT...\n")
      ∷ say (codes "IDT pointer: base=0x%x, limit=0x%x\n")
      ∷ change (λ k. record k { idt = idt_init isr k.idt })
      ∷ change (λ k. record k { interrupts = true })
      ∷ say (codes "IDT initialization complete\n")
      ∷ []

  abbrev pub irq_actions : List Action
  irq_actions =
      say (codes "Initializing IRQ...\n")
      ∷ change (λ k. record k { irq_handlers = reset_from P 16 0 k.irq_handlers })
      ∷ port (pic_remap P 0x20 0x28)
      ∷ say (codes "PIC remapped and all interrupts masked\n")
      ∷ say (codes "IRQ initialized\n")
      ∷ []

  -- an empty message where nothing is printed
  abbrev pub mm_actions : (kernel_end : Ptr) → MultibootInfo → List Action
  mm_actions kernel_end mb =
      say (codes "Initializing memory manager\n")
      ∷ say (
          if bit_and mb.flags 1 == 0
          then codes "No memory info available, assuming %u MB\n"
          else codes "Available memory: %u KB\n")
      ∷ say (
          if ltb (sub32 (available_memory mb) (page_after kernel_end)) default_heap_size
          then codes "Reducing heap size to %u KB due to memory constraints\n"
          else [])
      ∷ change (λ k. record k { mm = mm_init kernel_end mb k.mm })
      ∷ say (codes "Heap: 0x%x - 0x%x (%u KB)\n")
      ∷ []

  -- the stubs of kernel.c
  abbrev pub ipc_init : List Action
  ipc_init = say (codes "IPC stub\n") ∷ []

  abbrev pub load_multiboot_modules : List Action
  load_multiboot_modules = say (codes "Multiboot modules loader stub - addr: 0x%x\n") ∷ []

  abbrev pub initialize_modules : List Action
  initialize_modules = say (codes "Module manager stub\n") ∷ []

  -- what follows `serial_init`
  unfoldable pub after_serial :
      (gdt_at : Ptr) → Isr → (kernel_end : Ptr) → MultibootInfo → List Action
  after_serial gdt_at isr kernel_end mb =
      (say (codes "SvetOS kernel starting...\n") ∷ [])
      ++ gdt_actions gdt_at
      ++ (say (codes "GDT initialized\n") ∷ [])
      ++ idt_actions isr
      ++ (say (codes "IDT initialized\n") ∷ [])
      ++ remap_actions
      ++ (say (codes "PIC remapped\n") ∷ [])
      ++ irq_actions
      ++ (say (codes "IRQ initialized\n") ∷ say (codes "Interrupts initialized\n") ∷ [])
      ++ mm_actions kernel_end mb
      ++ (say (codes "Memory manager initialized\n") ∷ [])
      ++ ipc_init
      ++ (say (codes "IPC initialized\n") ∷ [])
      ++ load_multiboot_modules
      ++ (say (codes "Multiboot modules loaded\n") ∷ [])
      ++ initialize_modules
      ++ (say (codes "Modules initialized\n")
          ∷ say (codes "Kernel initialized successfully\n")
          ∷ [])

  -- The boot loader's information lies at `mbi_addr`.
  unfoldable pub kernel_main :
      ℕ
      → (gdt_at : Ptr) → Isr
      → (kernel_end : Ptr) → Bytes
      → (mbi_addr : Ptr) → Machine
      → Option Machine
  kernel_main fuel gdt_at isr kernel_end mem mbi_addr m =
      let mb = read_info multiboot_info mem mbi_addr in
      run fuel (port (serial_init P) ∷ after_serial gdt_at isr kernel_end mb) m
