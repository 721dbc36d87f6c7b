-- ===== src/Mm/Dump.antt =====
-- What `mm_dump_blocks` and `mm_print_stats` of kernel/src/mm/mm.c print, over `Messages`: the
-- formats, since `printk` reads no other argument. `wait` bounds the waiting for the serial port.
use svetos_kernel.Base.{
  ℕ, zero, suc, ◌<◌, ◌≡◌, refl, false, Option, none, some, List, [], ◌∷◌, length, ◌==◌,
  if◌then◌else◌, ap, sym, ◌≢◌, ◌∙◌, arith,
}
use svetos_kernel.Base.Text.{codes}
use svetos_kernel.Ports.{Ports}
use svetos_kernel.Serial.Line.{SerialLine, IsQuick, line_bytes, send_all, serial_puts_lem}
use svetos_kernel.Messages.{printk}
use svetos_kernel.Mm.{Ptr, null, Memory, Mm, rounds}
use svetos_kernel.Mm.Layout.{Cells, after, length-le-span}
use svetos_kernel.Mm.Chain.{Chain, IsHeap, link}

abbrev title_format : List ℕ
title_format = codes "Memory blocks:\n"

abbrev block_format : List ℕ
block_format = codes "  #%d: 0x%x size=%zu %s\n"

module _ (P : Ports) (wait : ℕ) where
  abbrev pub and_then : Option P.State → (P.State → Option P.State) → Option P.State
  and_then none k = none
  and_then (some s) k = k s

  -- the loop of `mm_dump_blocks`; `none`: it was cut off
  unfoldable pub dump_from : Memory → (fuel : ℕ) → (current : Ptr) → P.State → Option P.State
  dump_from mem zero current s = none
  dump_from mem (suc fuel) current s =
      let rest = and_then (printk P wait block_format s) (dump_from mem fuel (mem current).next) in
      if current == null then some s else rest

  unfoldable pub mm_dump_blocks : Mm → P.State → Option P.State
  mm_dump_blocks m s =
      and_then (printk P wait title_format s) (dump_from m.block (rounds m) m.first_block)

  unfoldable pub mm_print_stats : P.State → Option P.State
  mm_print_stats s = and_then (printk P wait (codes "Memory stats:\n") s) λ t.
      and_then (printk P wait (codes "  Total: %u KB, Heap: %u KB, Free: %u KB\n") t)
        λ u. printk P wait (codes "  Allocations: %u, Frees: %u\n") u

  -- `n` copies of a text, put in front of what is there
  abbrev pub send_times : ℕ → List ℕ → List ℕ → List ℕ
  send_times zero text out = out
  send_times (suc n) text out = send_times n text (send_all (line_bytes text) out)

  module _ (L : SerialLine P wait) where
    dump_from-lines :
        (mem : Memory) (cs : Cells) (fuel : ℕ) (p : Ptr) (s : P.State)
        → Chain mem p cs
        → 0 < p
        → length cs < fuel
        → IsQuick P wait L s
        → (t : P.State) × (dump_from mem fuel (link p cs) s ≡ some t)
          × (L.sent t ≡ send_times (length cs) block_format (L.sent s))
    unfolding dump_from printk
    dump_from-lines mem cs zero p s ch pos lt quick = absurd (omega arith)
    dump_from-lines mem [] (suc fuel) p s ch pos lt quick = (s, refl, refl)
    dump_from-lines mem (c ∷ cs) (suc fuel) p s ch pos lt quick =
        let here : (p == null) ≡ false = ground arith in
        let (u, puts, out, quick') = serial_puts_lem P wait L block_format s quick in
        let (t, ran, out') =
          dump_from-lines mem cs fuel (after p c) u ch.1 (omega arith) (omega arith) quick' in
        (t, rw (here, ch.0, puts) ran, out' ∙ ap (send_times (length cs) block_format) out)

    first_link : (p : Ptr) (cs : Cells) → cs ≢ [] → link p cs ≡ p
    first_link p [] ne = absurd (ne refl)
    first_link p (c ∷ cs) ne = refl

    -- On a well-formed heap and a serial line that is ready, the walk of `mm_dump_blocks` ends, and
    -- it has sent its title and then the format of a line once for each block of the heap, used or
    -- free.
    pub mm_dump_blocks-lines :
        (m : Mm) (cs : Cells) (s : P.State)
        → IsHeap m cs
        → IsQuick P wait L s
        → (t : P.State) × (mm_dump_blocks m s ≡ some t)
          × (L.sent t
              ≡ send_times
                  (length cs)
                  (codes "  #%d: 0x%x size=%zu %s\n")
                  (send_all (line_bytes (codes "Memory blocks:\n")) (L.sent s)))
    unfolding mm_dump_blocks printk
    mm_dump_blocks-lines m cs s v quick =
        let short = length-le-span cs in
        let (u, puts, out, quick') = serial_puts_lem P wait L title_format s quick in
        let (t, ran, out') =
          dump_from-lines m.block cs (rounds m) m.heap_start u v.chain v.start
            (omega (arith, v.ends)) quick' in
        let first = v.first ∙ sym (first_link m.heap_start cs v.filled) in
        (t, rw (puts, first) ran, out' ∙ ap (send_times (length cs) block_format) out)
