-- ===== src/Boot/Tests.antt =====
-- A machine with a serial port that needs two reads of its status after each byte.
use svetos_kernel.Base.{
  ℕ, ◌-◌, ◌≡◌, refl, true, false, none, some, get_or, ◌<◌, [], ◌∷◌, ◌==◌, replicate, arith,
}
use svetos_kernel.Serial.{com1, com1_status}
use svetos_kernel.Serial.Example.{Uart, status, write, bus, line}
use svetos_kernel.Serial.Line.{IsQuick}
use svetos_kernel.Strings.{Bytes}
use svetos_kernel.Multiboot.{multiboot_info, read_field, read_info}
use svetos_kernel.Gdt.{init_gdt}
use svetos_kernel.Idt.{Isr, idt_init}
use svetos_kernel.Irq.{default_irq_handler}
use svetos_kernel.Mm.{block_header, page_after, actual_heap_size}
use svetos_kernel.Mm.Layout.{cell}
use svetos_kernel.Mm.Chain.{IsHeap}
use svetos_kernel.Mm.Example.{blank, no_info, no_info-fits}
use svetos_kernel.Boot.{Machine, kernel_main}
use svetos_kernel.Boot.Run.{BootLine, boot_log, send_messages, kernel_main-boots}

below_write :
    (p v : ℕ) (s : Uart)
    → p < 0x3F8
    → IsQuick bus 5 line s
    → IsQuick bus 5 line (write p v s) × ((write p v s).out ≡ s.out)
below_write p v s low q =
    let a : (p == 0x3FB) ≡ false = ground arith in
    let b : (p == 0x3FA) ≡ false = ground arith in
    let c : (p == com1) ≡ false = ground arith in rw (a, b, c) (q, refl)

below_read :
    (p : ℕ) (s : Uart)
    → p < 0x3F8
    → IsQuick bus 5 line s
    → IsQuick bus 5 line (status p s).1 × ((status p s).1.out ≡ s.out)
below_read p s low q = let a : (p == com1_status) ≡ false = ground arith in rw a (q, refl)

abbrev boot_line : BootLine bus 5
boot_line = record {
  line = line;
  set_up = λ s. ((0, omega arith, (refl, refl)), refl);
  below_outb = below_write;
  below_inb = below_read;
}

-- the boot loader reports nothing
nothing_reported : read_info multiboot_info (λ a. 0) 640 ≡ no_info
unfolding read_info read_field multiboot_info
nothing_reported = refl

abbrev zeros : Bytes
zeros a = 0

abbrev isr : Isr
isr = record { isr0 = 4096; isr6 = 4100; isr8 = 4104; isr13 = 4108; isr14 = 4112 }

abbrev off : Machine bus
off = record {
  io = record { latch = false; busy = 9; out = [] };
  kernel = record {
    gdt = (record { limit = 0; base = 0 }, []);
    idt = [];
    irq_handlers = replicate 16 none;
    mm = blank;
    interrupts = true;
  };
}

kernel_main-boots_example :
    let mb = read_info multiboot_info zeros 640 in
    (m' : Machine bus) × (kernel_main bus 5 2048 isr 5000 zeros 640 off ≡ some m')
    × (m'.kernel.gdt ≡ init_gdt 2048 [])
    × (m'.kernel.idt ≡ idt_init isr [])
    × ((j : ℕ) → j < 16 → get_or m'.kernel.irq_handlers j none ≡ some default_irq_handler)
    × (m'.kernel.interrupts ≡ true)
    × IsHeap m'.kernel.mm (cell (actual_heap_size (page_after 5000) mb - block_header) true ∷ [])
    × (line.sent m'.io ≡ send_messages (boot_log 5000 mb) (line.sent off.io))
kernel_main-boots_example =
    kernel_main-boots bus 5 boot_line 2048 isr 5000 zeros 640 off (omega arith) (omega arith)
      (rw nothing_reported no_info-fits) refl
