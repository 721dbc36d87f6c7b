-- ===== src/Mm.antt =====
-- The heap allocator, kernel/src/mm/mm.c and include/kernel/mm/mm.h.
-- `block p` is what a read of a `mem_block_t` at address `p` gives. The two loops over the chain
-- of blocks run on fuel: `none` means that a loop was cut off.
pub mod Layout
pub mod Chain
pub mod Fit
pub mod Alloc
pub mod Coalesce
pub mod Free
pub mod Init
pub mod Limits
pub mod Allocator
pub mod Balance
pub mod Dump
pub mod Selftest
pub mod Example
mod Tests
use mathlib.Core.Option
use svetos_kernel.Base.{
  ℕ, zero, suc, ◌+◌, ◌-◌, ◌*◌, ◌/◌, Bool, true, false, ◌&&◌, ◌||◌, not, Option, none, some, bit_and,
  ltb, leb, ◌==◌, if◌then◌else◌, add32, sub32, not32, u32,
}

abbrev pub Ptr : Type 0
Ptr = ℕ

abbrev pub null : Ptr
null = 0

pub record MemBlock : Type 0 where
  pub size : ℕ
  pub next : Ptr
  pub free : Bool
  pub magic : ℕ

pub record MemoryStats : Type 0 where
  pub total_memory : ℕ
  pub heap_size : ℕ
  pub allocated : ℕ
  pub alloc_count : ℕ
  pub free_count : ℕ

abbrev pub Memory : Type 0
Memory = Ptr → MemBlock

-- the file's variables, with the memory that they point into
pub record Mm : Type 0 where
  pub heap_start : Ptr
  pub heap_end : Ptr
  pub first_block : Ptr
  pub block : Memory
  pub mm_stats : MemoryStats

abbrev pub default_heap_size : ℕ
default_heap_size = 2 * 1024 * 1024

abbrev pub min_block_size : ℕ
min_block_size = 16

abbrev pub block_magic : ℕ
block_magic = 0xDEADBEEF

-- `sizeof(mem_block_t)` on the 32-bit target: two words, a `bool` padded to a word, a word
abbrev pub block_header : ℕ
block_header = 16

-- `ALIGN(size)`, in `size_t` arithmetic
pub align : ℕ → ℕ
align size = bit_and (add32 size 7) (not32 7)

unfoldable pub update : Memory → Ptr → MemBlock → Memory
update mem p b a = if a == p then b else mem a

-- The fields of `multiboot_info_t` that the allocator reads.
pub record MultibootInfo : Type 0 where
  pub flags : ℕ
  pub mem_lower : ℕ
  pub mem_upper : ℕ

-- `available_memory` of `init_heap`; the flag is `MULTIBOOT_INFO_MEMORY`
pub available_memory : MultibootInfo → ℕ
available_memory mb =
    if bit_and mb.flags 1 == 0
    then 64 * 1024 * 1024
    else u32 (add32 mb.mem_lower mb.mem_upper * 1024)

-- `kernel_end` is the address of the linker's symbol `_kernel_end`.
pub page_after : Ptr → Ptr
page_after kernel_end = bit_and (add32 kernel_end 4095) (not32 4095)

pub actual_heap_size : Ptr → MultibootInfo → ℕ
actual_heap_size start mb =
    let max_heap_size = sub32 (available_memory mb) start in
    if ltb max_heap_size default_heap_size then max_heap_size else default_heap_size

pub init_heap : Ptr → MultibootInfo → Mm → Mm
unfolding available_memory page_after actual_heap_size update
init_heap kernel_end mb m =
    let start = page_after kernel_end in
    let heap_size = actual_heap_size start mb in
    record {
      heap_start = start;
      heap_end = add32 start heap_size;
      first_block = start;
      block = update m.block start (record {
        size = sub32 heap_size block_header;
        next = null;
        free = true;
        magic = block_magic;
      });
      mm_stats = record {
        total_memory = available_memory mb;
        heap_size = heap_size;
        allocated = 0;
        alloc_count = 0;
        free_count = 0;
      };
    }

pub mm_init : Ptr → MultibootInfo → Mm → Mm
unfolding init_heap
mm_init kernel_end mb m = init_heap kernel_end mb m

pub is_valid_pointer : Mm → Ptr → Bool
is_valid_pointer m ptr =
    if ptr == null || ltb ptr m.heap_start || leb m.heap_end ptr
    then false
    else (m.block (sub32 ptr block_header)).magic == block_magic

-- No chain of distinct blocks inside the heap is longer.
abbrev pub rounds : Mm → ℕ
rounds m = m.heap_end - m.heap_start + 1

-- the body of the search: `best` is `best_fit`, null at first
pub better : Memory → ℕ → (current best : Ptr) → Ptr
better mem size current best =
    if (mem current).free
      && leb size (mem current).size
      && (best == null || ltb (mem current).size (mem best).size)
    then current
    else best

pub find_best : Memory → ℕ → ℕ → (current best : Ptr) → Option Ptr
find_best mem size zero current best = none
find_best mem size (suc fuel) current best =
    let rest = find_best mem size fuel (mem current).next (better mem size current best) in
    if current == null then some best else rest

-- cuts the tail off a block that is large enough
pub split : Memory → ℕ → Ptr → Memory
unfolding update
split mem size best_fit =
    let remaining = sub32 (mem best_fit).size size in
    let new_block = add32 (add32 best_fit block_header) size in
    let mem' = update mem new_block (record {
      size = sub32 remaining block_header;
      next = (mem best_fit).next;
      free = true;
      magic = block_magic;
    }) in
    if leb (block_header + min_block_size) remaining
    then update mem' best_fit (record (mem' best_fit) { next = new_block; size = size })
    else mem

-- the state once the block at `best_fit` is handed out
pub hand_out : Mm → ℕ → Ptr → Mm
unfolding update split
hand_out m size best_fit =
    let mem = split m.block size best_fit in
    let b = mem best_fit in
    record m {
      block = update mem best_fit (record b { free = false });
      mm_stats = record m.mm_stats {
        allocated = add32 m.mm_stats.allocated (add32 b.size block_header);
        alloc_count = add32 m.mm_stats.alloc_count 1;
      };
    }

pub take_block : Mm → ℕ → Ptr → Ptr × Mm
unfolding hand_out
take_block m size best_fit =
    if best_fit == null then (null, m) else (add32 best_fit block_header, hand_out m size best_fit)

pub kmalloc : ℕ → Mm → Option (Ptr × Mm)
unfolding align better find_best take_block
kmalloc size m =
    if size == 0
    then some (null, m)
    else if m.heap_start == null
    then some (null, m)
    else Option.map (take_block m (align size))
        (find_best m.block (align size) (rounds m) m.first_block null)

-- joins `current` with the block after it, if both are free
pub join : Memory → Ptr → Memory
unfolding update
join mem current =
    let c = mem current in
    if c.free && not (c.next == null) && (mem c.next).free
    then update mem current (record c {
      size = add32 c.size (add32 block_header (mem c.next).size);
      next = (mem c.next).next;
    })
    else mem

pub coalesce : ℕ → Memory → Ptr → Option Memory
unfolding join
coalesce zero mem current = none
coalesce (suc fuel) mem current =
    let mem' = join mem current in
    let rest = coalesce fuel mem' (mem' current).next in if current == null then some mem else rest

-- marks the block free and counts it
pub release : Mm → Ptr → Mm
unfolding update
release m p =
    let b = m.block p in
    record m {
      block = update m.block p (record b { free = true });
      mm_stats = record m.mm_stats {
        allocated = sub32 m.mm_stats.allocated (add32 b.size block_header);
        free_count = add32 m.mm_stats.free_count 1;
      };
    }

pub kfree : Ptr → Mm → Option Mm
kfree ptr m =
    if ptr == null
    then some m
    else if not (is_valid_pointer m ptr)
    then some m
    else (let m' = release m (sub32 ptr block_header) in
        Option.map (λ mem. record m' { block = mem })
          (coalesce (rounds m') m'.block m'.first_block))

-- the number that `mm_print_stats` computes
pub free_bytes : Mm → ℕ
free_bytes m = sub32 m.mm_stats.heap_size m.mm_stats.allocated
