-- ===== src/Mm/Chain.antt =====
-- How the headers in memory represent an arena: each block points to the one just after it.
use svetos_kernel.Base.{
  ℕ, ◌+◌, ◌≤◌, ◌<◌, ◌≡◌, ◌≢◌, inl, inr, Bool, false, [], ◌∷◌, ◌%◌, ◌^◌, ◌∙◌, arith,
}
use svetos_kernel.Mm.{Ptr, null, MemBlock, Memory, Mm, block_header, block_magic, update}
use svetos_kernel.Mm.Layout.{Cell, Cells, after, span, held, CellAt, IsAligned}

abbrev pub header : ℕ → Ptr → Bool → MemBlock
header n q f = record { size = n; next = q; free = f; magic = block_magic }

-- the `next` that points to the blocks `cs`, which start at `p`
abbrev pub link : Ptr → Cells → Ptr
link p [] = null
link p (_ ∷ _) = p

abbrev pub Chain : Memory → Ptr → Cells → Type 0
Chain mem p [] = Unit {0}
Chain mem p (c ∷ cs) =
    (mem p ≡ header c.size (link (after p c) cs) c.free) × Chain mem (after p c) cs

-- The state of the allocator represents the arena `cs`: the blocks tile the heap, every address is
-- a 32-bit one, sizes are multiples of 8, and the statistics agree with the blocks.
pub record IsHeap (m : Mm) (cs : Cells) : Type 0 where
  pub first : m.first_block ≡ m.heap_start
  pub start : 0 < m.heap_start
  pub chain : Chain m.block m.heap_start cs
  pub ends : m.heap_start + span cs ≡ m.heap_end
  pub filled : cs ≢ []
  pub small : m.heap_end < 2 ^ 32
  pub page : m.heap_start % 8 ≡ 0
  pub aligned : IsAligned cs
  pub counted : m.mm_stats.allocated ≡ held cs
  pub sized : m.mm_stats.heap_size ≡ span cs

-- `p` was returned by `kmalloc` for at least `n` bytes and is not freed: the block at its header
-- is in use.
abbrev pub IsLive : Mm → Cells → Ptr → ℕ → Type 0
IsLive m cs p n =
    (c : Cell) × (q : Ptr) × CellAt m.heap_start cs q c
    × (p ≡ q + block_header)
    × (c.free ≡ false)
    × (n ≤ c.size)

-- A chain survives any change that spares its own addresses.
pub Chain-frame :
    {mem mem' : Memory} (p : Ptr) (cs : Cells)
    → ((a : Ptr) → p ≤ a → a < p + span cs → mem' a ≡ mem a)
    → Chain mem p cs
    → Chain mem' p cs
Chain-frame p [] same ch = tt
Chain-frame p (c ∷ cs) same ch = (
  same p (omega arith) (omega arith) ∙ ch.0,
  Chain-frame (after p c) cs (λ a l h. same a (omega arith) (omega arith)) ch.1,
)

-- The header in memory shows the block.
pub Chain-at :
    (mem : Memory) (p : Ptr) (cs : Cells) (q : Ptr) (c : Cell)
    → Chain mem p cs
    → CellAt p cs q c
    → ((mem q).size ≡ c.size) × ((mem q).free ≡ c.free) × ((mem q).magic ≡ block_magic)
Chain-at mem p [] q c ch at = absurd at
Chain-at mem p (d ∷ cs) q c ch (inl here) = ground arith
Chain-at mem p (d ∷ cs) q c ch (inr at) = Chain-at mem (after p d) cs q c ch.1 at

-- Nor does a write below it disturb a chain.
pub Chain-update :
    (mem : Memory) (a p : Ptr) (b : MemBlock) (cs : Cells)
    → a < p
    → Chain mem p cs
    → Chain (update mem a b) p cs
unfolding update
Chain-update mem a p b cs lt ch = Chain-frame p cs (λ x l h. ground arith) ch
