-- ===== src/Mm/Limits.antt =====
-- Where the allocator falls short of its contract: requests near 2 ^ 32, double frees, and what
-- one pass of joining leaves.
use svetos_kernel.Base.{
  ℕ, ◌+◌, ◌^◌, ◌≤◌, ◌<◌, ◌≡◌, ◌≢◌, refl, inl, inr, true, false, Option, some, [], ◌∷◌, subst, sym,
  ◌∙◌, sub32, ◌==◌, ==-zero, arith,
}
use svetos_kernel.Mm.{Ptr, null, Mm, block_header, align, kmalloc, kfree, release, rounds}
use svetos_kernel.Mm.Layout.{
  Cell, Cells, cell, held, CellAt, Fits, mark, pair_up, place, length-le-span,
}
use svetos_kernel.Mm.Chain.{Chain-at, link, IsHeap}
use svetos_kernel.Mm.Alloc.{align-eq, Returned, served, refused, kmalloc_lem}
use svetos_kernel.Mm.Alloc.Blocks.{granted, held-place, CellAt-place_self}
use svetos_kernel.Mm.Coalesce.{coalesce-pair_up}
use svetos_kernel.Mm.Free.Mark.{span-mark, held-mark, Chain-mark}
use svetos_kernel.Mm.Free.Join.{held-pair_up}
use svetos_kernel.Mm.Free.{
  is_valid_pointer-CellAt, bounds, link-first, mark-ne-nil, kfree-release, freed,
}

align_wraps : (size : ℕ) → 2 ^ 32 ≤ size + 7 → size < 2 ^ 32 → align size ≡ 0
align_wraps size lo hi = omega (arith, align-eq size)

Returned-served :
    (m : Mm) (cs : Cells) (n : ℕ) (o : Option (Ptr × Mm)) (r : Ptr) (d : Cell)
    → CellAt m.heap_start cs r d
    → Fits n d
    → Returned m cs n o
    → (p : Ptr) × (m' : Mm) × (o ≡ some (p, m')) × (p ≢ null)
Returned-served m cs n o r d at f (served {q} at' f' _) =
    (q + block_header, _, refl, λ e. omega arith)
Returned-served m cs n o r d at f (refused unfit) = absurd (unfit r d at f)

-- On a well-formed heap, a request of a size from 2 ^ 32 - 7 to 2 ^ 32 - 1, which is rounded to 0,
-- gets a pointer that is not null as soon as any block is free, of whatever size.
pub kmalloc_wraps :
    (size : ℕ) (m : Mm) (cs : Cells) (r : Ptr) (d : Cell)
    → IsHeap m cs
    → 2 ^ 32 ≤ size + 7
    → size < 2 ^ 32
    → CellAt m.heap_start cs r d
    → d.free ≡ true
    → (p : Ptr) × (m' : Mm) × (kmalloc size m ≡ some (p, m')) × (p ≢ null)
kmalloc_wraps size m cs r d v lo hi at free =
    let wrapped = align_wraps size lo hi in
    Returned-served m cs (align size) (kmalloc size m) r d at (free, omega arith)
      (kmalloc_lem size m cs v (omega arith))

-- On a well-formed heap, `kfree` of a block of at least one byte that is free already returns and
-- takes its bytes, with its header, off `allocated`, which is what the blocks in use hold.
pub double_free :
    (m : Mm) (cs : Cells) (q : Ptr) (c : Cell)
    → IsHeap m cs
    → CellAt m.heap_start cs q c
    → c.free ≡ true
    → 0 < c.size
    → (m' : Mm) × (kfree (q + block_header) m ≡ some m')
      × (m'.mm_stats.allocated ≡ sub32 (held cs) (c.size + block_header))
unfolding kfree release
double_free m cs q c v at free pos =
    let b = bounds m cs q c v at in
    let back : sub32 (q + block_header) block_header ≡ q = omega (arith, v.small) in
    let cs' = mark m.heap_start cs q in
    let same = span-mark m.heap_start cs q in
    let first : link m.heap_start cs' ≡ m.first_block =
      link-first m.heap_start cs' (mark-ne-nil m.heap_start cs q v.filled) ∙ sym v.first in
    let (mem, e, _, _) =
      coalesce-pair_up (rounds m) (release m q).block m.heap_start cs'
        (omega (arith, length-le-span cs', v.ends)) v.start (omega (arith, v.ends, v.small))
        (Chain-mark m.block m.heap_start cs q c at v.chain) in
    (
      record (release m q) { block = mem },
      rw (
        ==-zero (q + block_header) (omega arith),
        is_valid_pointer-CellAt m cs q c v at pos,
        back,
        (rw first at e),
      ),
      omega (arith, (Chain-at m.block m.heap_start cs q c v.chain at).0, v.counted),
    )

joined :
    (p : Ptr) (a b c : ℕ)
    → pair_up (mark p (cell a true ∷ cell b false ∷ cell c true ∷ []) (p + 16 + a))
      ≡ cell (a + (16 + b)) true ∷ cell c true ∷ []
unfolding pair_up mark
joined p a b c =
    let miss : (p == p + 16 + a) ≡ false = ground arith in
    let hit : (p + 16 + a == p + 16 + a) ≡ true = ground arith in rw (miss, hit)

-- On a heap of three blocks, of which the middle one is in use and has at least one byte, freeing
-- that one joins only the first two: the heap is left with two free blocks side by side.
pub kfree_leaves_neighbours :
    (m : Mm) (a b c : ℕ)
    → IsHeap m (cell a true ∷ cell b false ∷ cell c true ∷ [])
    → 0 < b
    → (m' : Mm) × (kfree (m.heap_start + 16 + a + 16) m ≡ some m')
      × IsHeap m' (cell (a + (16 + b)) true ∷ cell c true ∷ [])
kfree_leaves_neighbours m a b c v pos =
    let cs = cell a true ∷ cell b false ∷ cell c true ∷ [] in
    let q = m.heap_start + 16 + a in
    let (m', e, v', _, _) =
      kfree-release m cs q (cell b false) v (inr (inl (refl, refl))) refl pos in
    (m', e, subst (IsHeap m') (joined m.heap_start a b c) v')

-- A block that is cut out and given back leaves the bytes that are held as they were.
pub held-freed :
    (m : Mm) (cs : Cells) (size : ℕ) (q : Ptr) (c : Cell)
    → CellAt m.heap_start cs q c
    → Fits size c
    → held (freed m (place size m.heap_start cs q) q) ≡ held cs
held-freed m cs size q c at f =
    let cs' = place size m.heap_start cs q in
    omega (
      arith,
      held-pair_up (mark m.heap_start cs' q),
      held-mark m.heap_start cs' q (cell (granted size c) false)
          (CellAt-place_self size m.heap_start cs q c at) refl,
      held-place size m.heap_start cs q c at f,
    )
