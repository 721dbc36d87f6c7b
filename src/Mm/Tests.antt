-- ===== src/Mm/Tests.antt =====
-- Runs of the allocator on a heap of one page, and its theorems at them.
use svetos_kernel.Base.{
  length, ◌+◌, ◌-◌, ◌≤◌, ◌≡◌, ◌≢◌, refl, inl, true, false, some, [], ◌∷◌, arith,
}
use svetos_kernel.Mm.{
  Ptr, null, Mm, block_header, default_heap_size, update, align, available_memory, page_after,
  actual_heap_size, init_heap, mm_init, split, hand_out, kmalloc, kfree,
}
use svetos_kernel.Mm.Layout.{Cells, cell}
use svetos_kernel.Mm.Chain.{IsHeap}
use svetos_kernel.Mm.Example.{
  blank, eight_kb, fresh, one_block, fresh-IsHeap, used, two_blocks, kmalloc_runs,
}
use svetos_kernel.Mm.Init.{mm_init-IsHeap}
use svetos_kernel.Mm.Alloc.{Returned, kmalloc_lem}
use svetos_kernel.Mm.Alloc.Served.{IsServed, kmalloc-IsServed}
use svetos_kernel.Mm.Free.{IsFreed, kfree-IsFreed}
use svetos_kernel.Mm.Dump.{mm_dump_blocks, send_times, mm_dump_blocks-lines}
use svetos_kernel.Base.Text.{codes}
use svetos_kernel.Serial.Line.{line_bytes, send_all}
use svetos_kernel.Serial.Example.{Uart, bus, line, quiet}
use svetos_kernel.Mm.Balance.{kfree-kmalloc}
use svetos_kernel.Mm.Limits.{kmalloc_wraps}

start_up :
    (available_memory eight_kb ≡ 8192)
    × (page_after 1 ≡ 4096)
    × (actual_heap_size 4096 eight_kb ≡ 4096)
unfolding available_memory page_after actual_heap_size
start_up = (refl, refl, refl)

fresh-mm_init : mm_init 1 eight_kb blank ≡ fresh
unfolding mm_init init_heap
fresh-mm_init = refl

used-IsHeap : IsHeap used two_blocks
unfolding update hand_out split
used-IsHeap = record {
  first = refl;
  start = omega arith;
  chain = (refl, (refl, tt));
  ends = refl;
  filled = ground arith;
  small = omega arith;
  page = refl;
  aligned = (refl, (refl, tt));
  counted = refl;
  sized = refl;
}

-- A third of the heap is in use, between two free blocks.
abbrev middle : Mm
middle = record fresh {
  block =
      update
        (update
          (update blank.block 4096
            (record { size = 48; next = 4160; free = true; magic = 0xDEADBEEF }))
          4160 (record { size = 96; next = 4272; free = false; magic = 0xDEADBEEF }))
        4272 (record { size = 3904; next = 0; free = true; magic = 0xDEADBEEF });
  mm_stats = record fresh.mm_stats { allocated = 112 };
}

abbrev three_blocks : Cells
three_blocks = cell 48 true ∷ cell 96 false ∷ cell 3904 true ∷ []

middle-IsHeap : IsHeap middle three_blocks
unfolding update
middle-IsHeap = record {
  first = refl;
  start = omega arith;
  chain = (refl, (refl, (refl, tt)));
  ends = refl;
  filled = ground arith;
  small = omega arith;
  page = refl;
  aligned = (refl, (refl, (refl, tt)));
  counted = refl;
  sized = refl;
}

mm_init-IsHeap_example :
    let m' = mm_init 1 eight_kb blank in
    IsHeap m' (cell (actual_heap_size (page_after 1) eight_kb - block_header) true ∷ [])
    × (1 ≤ m'.heap_start)
    × (m'.heap_end ≤ available_memory eight_kb)
    × (m'.heap_end ≤ m'.heap_start + default_heap_size)
mm_init-IsHeap_example =
    mm_init-IsHeap 1 eight_kb blank (omega arith) (omega arith) (omega (arith, start_up))

kmalloc_lem_example : Returned middle three_blocks (align 40) (kmalloc 40 middle)
kmalloc_lem_example = kmalloc_lem 40 middle three_blocks middle-IsHeap (omega arith)

kmalloc-IsServed_example : (cs' : Cells) × IsServed fresh one_block 100 4112 used cs'
kmalloc-IsServed_example =
    kmalloc-IsServed 100 fresh one_block 4112 used fresh-IsHeap (omega arith) kmalloc_runs
      (ground arith)

kfree-IsFreed_example :
    (m' : Mm) × (cs' : Cells) × (kfree 4112 used ≡ some m') × IsFreed used two_blocks 4112 m' cs'
unfolding hand_out
kfree-IsFreed_example =
    kfree-IsFreed used two_blocks 4112 100 used-IsHeap
      (cell 104 false, 4096, inl (refl, refl), refl, refl, omega arith) (omega arith)

kmalloc_wraps_example :
    (p : Ptr) × (m' : Mm) × (kmalloc 0xFFFF_FFFF fresh ≡ some (p, m')) × (p ≢ null)
kmalloc_wraps_example =
    kmalloc_wraps 0xFFFF_FFFF fresh one_block 4096 (cell 4080 true) fresh-IsHeap (omega arith)
      (omega arith) (inl (refl, refl)) refl

kfree-kmalloc_example :
    (m'' : Mm) × (kfree 4112 used ≡ some m'') × (m''.mm_stats.allocated ≡ fresh.mm_stats.allocated)
kfree-kmalloc_example =
    kfree-kmalloc fresh one_block 100 fresh-IsHeap (omega arith) (omega arith) 4112 used
      kmalloc_runs (omega arith)

mm_dump_blocks-lines_example :
    (t : Uart) × (mm_dump_blocks bus 5 used quiet ≡ some t)
    × (line.sent t
        ≡ send_times bus 5
            (length two_blocks)
            (codes "  #%d: 0x%x size=%zu %s\n")
            (send_all (line_bytes (codes "Memory blocks:\n")) (line.sent quiet)))
mm_dump_blocks-lines_example =
    mm_dump_blocks-lines bus 5 line used two_blocks quiet used-IsHeap (0, omega arith, (refl, refl))
