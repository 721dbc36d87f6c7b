-- ===== src/Mm/Example.antt =====
-- A heap of one page, before and after a call of `kmalloc`.
use svetos_kernel.Base.{◌+◌, ◌≤◌, ◌≡◌, refl, true, false, some, [], ◌∷◌, arith}
use svetos_kernel.Mm.{
  available_memory, page_after, MultibootInfo, Mm, update, align, better, find_best, hand_out,
  take_block, kmalloc,
}
use svetos_kernel.Mm.Layout.{Cells, cell}
use svetos_kernel.Mm.Chain.{IsHeap}

-- before `mm_init`
abbrev pub blank : Mm
blank = record {
  heap_start = 0;
  heap_end = 0;
  first_block = 0;
  block = λ _. record { size = 0; next = 0; free = false; magic = 0 };
  mm_stats = record {
    total_memory = 0;
    heap_size = 0;
    allocated = 0;
    alloc_count = 0;
    free_count = 0;
  };
}

-- 8 KB of memory, with a kernel that ends in the first page
abbrev pub eight_kb : MultibootInfo
eight_kb = record { flags = 1; mem_lower = 8; mem_upper = 0 }

abbrev pub fresh : Mm
fresh = record {
  heap_start = 4096;
  heap_end = 8192;
  first_block = 4096;
  block =
      update blank.block 4096 (record { size = 4080; next = 0; free = true; magic = 0xDEADBEEF });
  mm_stats = record {
    total_memory = 8192;
    heap_size = 4096;
    allocated = 0;
    alloc_count = 0;
    free_count = 0;
  };
}

abbrev pub one_block : Cells
one_block = cell 4080 true ∷ []

pub fresh-IsHeap : IsHeap fresh one_block
unfolding update
fresh-IsHeap = record {
  first = refl;
  start = omega arith;
  chain = (refl, tt);
  ends = refl;
  filled = ground arith;
  small = omega arith;
  page = refl;
  aligned = (refl, tt);
  counted = refl;
  sized = refl;
}

-- after `kmalloc(100)`
abbrev pub used : Mm
used = hand_out fresh 104 4096

abbrev pub two_blocks : Cells
two_blocks = cell 104 false ∷ cell 3960 true ∷ []

pub kmalloc_runs : kmalloc 100 fresh ≡ some (4112, used)
unfolding kmalloc align better find_best take_block hand_out update
kmalloc_runs = refl

-- a heap of 16 pages, and after `kmalloc(4096)`
abbrev pub large : Mm
large = record {
  heap_start = 4096;
  heap_end = 69632;
  first_block = 4096;
  block =
      update blank.block 4096 (record { size = 65520; next = 0; free = true; magic = 0xDEADBEEF });
  mm_stats = record {
    total_memory = 131072;
    heap_size = 65536;
    allocated = 0;
    alloc_count = 0;
    free_count = 0;
  };
}

abbrev pub large_block : Cells
large_block = cell 65520 true ∷ []

pub large-IsHeap : IsHeap large large_block
unfolding update
large-IsHeap = record {
  first = refl;
  start = omega arith;
  chain = (refl, tt);
  ends = refl;
  filled = ground arith;
  small = omega arith;
  page = refl;
  aligned = (refl, tt);
  counted = refl;
  sized = refl;
}

abbrev pub large_used : Mm
large_used = hand_out large 4096 4096

pub kmalloc_large_runs : kmalloc 4096 large ≡ some (4112, large_used)
unfolding kmalloc align better find_best take_block hand_out update
kmalloc_large_runs = refl

-- without information of the boot loader
abbrev pub no_info : MultibootInfo
no_info = record { flags = 0; mem_lower = 0; mem_upper = 0 }

pub no_info-fits : page_after 5000 + 16 ≤ available_memory no_info
unfolding page_after available_memory
no_info-fits = omega arith
