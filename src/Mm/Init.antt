-- ===== src/Mm/Init.antt =====
-- `mm_init` sets up a heap of one free block.
use svetos_kernel.Base.{
  ℕ, ◌+◌, ◌-◌, ◌*◌, ◌/◌, ◌%◌, ◌^◌, ◌≤◌, ◌<◌, ◌≡◌, refl, true, [], ◌∷◌, ◌∙◌, ap, bit_and, add32,
  sub32, arith,
}
use svetos_kernel.Base.Bits.{bit_and-shifted, bit_and-mask}
use svetos_kernel.Mm.{
  Ptr, null, MultibootInfo, Memory, Mm, block_header, default_heap_size, update, available_memory,
  page_after, actual_heap_size, init_heap, mm_init,
}
use svetos_kernel.Mm.Layout.{cell}
use svetos_kernel.Mm.Chain.{IsHeap}

-- The heap starts at the first page boundary that is not below the end of the kernel.
pub page_after-eq : (k : Ptr) → k + 4095 < 2 ^ 32 → page_after k ≡ (k + 4095) / 4096 * 4096
unfolding page_after
page_after-eq k h =
    let masked : bit_and (add32 k 4095 / 4096) 0xFFFFF ≡ add32 k 4095 / 4096 % 2 ^ 20 =
      bit_and-mask 20 (add32 k 4095 / 4096) in
    bit_and-shifted 12 (add32 k 4095) 0xFFFFF ∙ omega (arith, masked)

available_memory-mod :
    (mb : MultibootInfo) → (available_memory mb % 1024 ≡ 0) × (available_memory mb < 2 ^ 32)
unfolding available_memory
available_memory-mod mb = ground arith

actual_heap_size_bounds :
    (start : Ptr) (mb : MultibootInfo)
    → start % 1024 ≡ 0
    → start + 16 ≤ available_memory mb
    → (16 ≤ actual_heap_size start mb)
      × (start + actual_heap_size start mb ≤ available_memory mb)
      × (actual_heap_size start mb ≤ default_heap_size)
      × (actual_heap_size start mb % 1024 ≡ 0)
unfolding actual_heap_size
actual_heap_size_bounds start mb h le = ground (arith, available_memory-mod mb)

update_self :
    (mem : Memory) (p : Ptr) (n : ℕ)
    → update mem p (record { size = n; next = null; free = true; magic = 0xDEADBEEF }) p
      ≡ record { size = n; next = null; free = true; magic = 0xDEADBEEF }
unfolding update
update_self mem p n = ground arith

-- Where the page after the kernel lies at least 16 bytes below the end of memory, `mm_init` leaves
-- a well-formed heap of one free block, of 2 MB at most, which starts after the kernel and ends
-- within the memory that the boot loader reports, or within 64 MB where it reports none.
pub mm_init-IsHeap :
    (k : Ptr) (mb : MultibootInfo) (m : Mm)
    → 0 < k
    → k + 4095 < 2 ^ 32
    → page_after k + 16 ≤ available_memory mb
    → let m' = mm_init k mb m in
      IsHeap m' (cell (actual_heap_size (page_after k) mb - block_header) true ∷ [])
      × (k ≤ m'.heap_start)
      × (m'.heap_end ≤ available_memory mb)
      × (m'.heap_end ≤ m'.heap_start + default_heap_size)
unfolding mm_init init_heap
mm_init-IsHeap k mb m pos small fits =
    let page = page_after-eq k small in
    let b = actual_heap_size_bounds (page_after k) mb (omega arith) fits in
    let top = available_memory-mod mb in
    (
      record {
        first = refl;
        start = omega arith;
        chain = (
          update_self m.block (page_after k)
                (sub32 (actual_heap_size (page_after k) mb) block_header)
              ∙ ap (λ n. record { size = n; next = null; free = true; magic = 0xDEADBEEF })
                  (omega arith),
          tt,
        );
        ends = omega arith;
        filled = ground arith;
        small = omega arith;
        page = omega arith;
        aligned = (omega arith, tt);
        counted = refl;
        sized = omega arith;
      },
      omega arith,
      omega arith,
      omega arith,
    )
