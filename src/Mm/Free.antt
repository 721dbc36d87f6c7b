-- ===== src/Mm/Free.antt =====
-- What `kfree` of kernel/src/mm/mm.c does to a well-formed heap.
pub mod Mark
pub mod Join
use mathlib.Core.Option
use svetos_kernel.Base.{
  ℕ, zero, suc, ◌+◌, ◌-◌, ◌≤◌, ◌<◌, ◌≡◌, ◌≢◌, ◌↔◌, ◌⊎◌, inl, inr, refl, Bool, true, false, not,
  ◌||◌, Option, none, some, [], ◌∷◌, ◌^◌, ◌%◌, leb, ltb, ◌==◌, Bool-cases, ==-zero, ltb-false,
  leb-false, if◌then◌else◌, subst, sym, ap, ◌∙◌, add32, sub32, length, arith,
}
use svetos_kernel.Mm.{
  Ptr, null, Mm, Memory, block_header, block_magic, rounds, is_valid_pointer, release, coalesce,
  kfree,
}
use svetos_kernel.Mm.Layout.{
  Cell, Cells, cell, span, held, CellAt, IsAligned, mark, pair_up, CellAt-bounds, CellAt-unique,
  held-le-span, length-le-span,
}
use svetos_kernel.Mm.Chain.{link, Chain, Chain-at, IsHeap, IsLive}
use svetos_kernel.Mm.Coalesce.{coalesce-pair_up}
use Mark.{
  span-mark, length-mark, IsAligned-mark, held-mark, CellAt-mark_inv, CellAt-mark_ne, Chain-mark,
}
use Join.{
  span-pair_up, held-pair_up, IsAligned-pair_up, pair_up-ne-nil, CellAt-pair_up, CellAt-pair_up_inv,
}

-- what holds after `kfree(p)` of a block of `size` payload bytes
pub record IsFreed (m : Mm) (cs : Cells) (p : Ptr) (m' : Mm) (cs' : Cells) : Type 0 where
  pub heap : IsHeap m' cs'
  pub gone : (k : ℕ) → ¬ IsLive m' cs' p k
  pub others : (r : Ptr) (k : ℕ) → r ≢ p → IsLive m cs r k → IsLive m' cs' r k
  pub nothing_else : (r : Ptr) (k : ℕ) → IsLive m' cs' r k → (r ≢ p) × IsLive m cs r k
  pub arena : (m'.heap_start ≡ m.heap_start) × (m'.heap_end ≡ m.heap_end)

pub mark-ne-nil : (p : Ptr) (cs : Cells) (q : Ptr) → cs ≢ [] → mark p cs q ≢ []
unfolding mark
mark-ne-nil p [] q h = h
mark-ne-nil p (c ∷ cs) q h = ground arith

module _ (m : Mm) (cs : Cells) (q : Ptr) (c : Cell) (v : IsHeap m cs)
    (at : CellAt m.heap_start cs q c) where
  pub bounds : (m.heap_start ≤ q) × (q + block_header + c.size ≤ m.heap_end)
  bounds = omega (arith, CellAt-bounds m.heap_start cs q c at, v.ends)

  pub is_valid_pointer-CellAt : 0 < c.size → is_valid_pointer m (q + block_header) ≡ true
  unfolding is_valid_pointer
  is_valid_pointer-CellAt pos =
      let back : sub32 (q + block_header) block_header ≡ q = omega (arith, bounds, v.small) in
      let magic : ((m.block q).magic == block_magic) ≡ true =
        rw (Chain-at m.block m.heap_start cs q c v.chain at).2 in
      rw
        (
          ==-zero (q + block_header) (omega arith),
          ltb-false (q + block_header) m.heap_start (omega (arith, bounds)),
          leb-false m.heap_end (q + block_header) (omega (arith, bounds)),
          back,
        )
        magic

  -- The write of `block->free` and the statistics.
  release-IsHeap : c.free ≡ false → IsHeap (release m q) (mark m.heap_start cs q)
  unfolding release
  release-IsHeap used = record {
    first = v.first;
    start = v.start;
    chain = Chain-mark m.block m.heap_start cs q c at v.chain;
    ends = rw (span-mark m.heap_start cs q) v.ends;
    filled = mark-ne-nil m.heap_start cs q v.filled;
    small = v.small;
    page = v.page;
    aligned = IsAligned-mark m.heap_start cs q v.aligned;
    counted = omega (
      arith,
      (Chain-at m.block m.heap_start cs q c v.chain at).0,
      held-mark m.heap_start cs q c at used,
      v.counted,
      held-le-span cs,
      v.ends,
      v.small,
    );
    sized = rw (span-mark m.heap_start cs q) v.sized;
  }

-- Joining keeps the heap well-formed, with the chain that `coalesce` leaves.
joined-IsHeap :
    (m : Mm) (cs : Cells) (mem : Memory)
    → IsHeap m cs
    → Chain mem m.heap_start (pair_up cs)
    → IsHeap (record m { block = mem }) (pair_up cs)
joined-IsHeap m cs mem v ch = record {
  first = v.first;
  start = v.start;
  chain = ch;
  ends = rw (span-pair_up cs) v.ends;
  filled = pair_up-ne-nil cs v.filled;
  small = v.small;
  page = v.page;
  aligned = IsAligned-pair_up cs v.aligned;
  counted = rw (held-pair_up cs) v.counted;
  sized = rw (span-pair_up cs) v.sized;
}

pub link-first : (p : Ptr) (cs : Cells) → cs ≢ [] → link p cs ≡ p
link-first p [] h = absurd (h refl)
link-first p (c ∷ cs) h = refl

-- The joining loop, started as `kfree` starts it, ends.
joins :
    (m : Mm) (cs : Cells)
    → IsHeap m cs
    → (mem : Memory) × (coalesce (rounds m) m.block m.first_block ≡ some mem)
      × IsHeap (record m { block = mem }) (pair_up cs)
joins m cs v =
    let (mem, e, ch, _) =
      coalesce-pair_up (rounds m) m.block m.heap_start cs (omega (arith, length-le-span cs, v.ends))
        v.start (omega (arith, v.ends, v.small)) v.chain in
    let first : link m.heap_start cs ≡ m.first_block =
      link-first m.heap_start cs v.filled ∙ sym v.first in
    (mem, rw first at e, joined-IsHeap m cs mem v ch)

-- the list of blocks after `kfree` of the block at `q`
abbrev pub freed : Mm → Cells → Ptr → Cells
freed m cs q = pair_up (mark m.heap_start cs q)

module _ (m : Mm) (cs : Cells) (q : Ptr) (c : Cell) (v : IsHeap m cs)
    (at : CellAt m.heap_start cs q c) (used : c.free ≡ false) (pos : 0 < c.size) where
  -- Freeing a block in use ends, and leaves the heap of the blocks `freed`.
  pub kfree-release :
      (m' : Mm) × (kfree (q + block_header) m ≡ some m')
      × IsHeap m' (freed m cs q)
      × (m'.heap_start ≡ m.heap_start)
      × (m'.heap_end ≡ m.heap_end)
  unfolding kfree release
  kfree-release =
      let back : sub32 (q + block_header) block_header ≡ q =
        omega (arith, bounds m cs q c v at, v.small) in
      let v' = release-IsHeap m cs q c v at used in
      let (mem, e, v'') = joins (release m q) (mark m.heap_start cs q) v' in
      (
        record (release m q) { block = mem },
        rw (
          ==-zero (q + block_header) (omega arith),
          is_valid_pointer-CellAt m cs q c v at pos,
          back,
          e,
        ),
        v'',
        refl,
        refl,
      )

  fits_none :
      (k : ℕ) (m' : Mm)
      → m'.heap_start ≡ m.heap_start
      → ¬ IsLive m' (freed m cs q) (q + block_header) k
  fits_none k m' e (d, r, at', e', used', le) =
      let same : r ≡ q = omega arith in
      let at'' : CellAt m.heap_start (freed m cs q) r d =
        subst (λ s. CellAt s (freed m cs q) r d) e at' in
      (CellAt-mark_inv m.heap_start cs q r d used'
          (CellAt-pair_up_inv m.heap_start (mark m.heap_start cs q) r d used' at'')).0
        same

  keeps_others :
      (m' : Mm) (r : Ptr) (k : ℕ)
      → m'.heap_start ≡ m.heap_start
      → r ≢ q + block_header
      → IsLive m cs r k
      → IsLive m' (freed m cs q) r k
  keeps_others m' r k e ne (d, s, at', e', used', le) =
      let apart : s ≢ q = λ same. ne (omega arith) in
      let at'' =
        CellAt-pair_up m.heap_start (mark m.heap_start cs q) s d used'
          (CellAt-mark_ne m.heap_start cs q s d apart at') in
      (d, s, subst (λ x. CellAt x (freed m cs q) s d) (sym e) at'', e', used', le)

  adds_none :
      (m' : Mm) (r : Ptr) (k : ℕ)
      → m'.heap_start ≡ m.heap_start
      → IsLive m' (freed m cs q) r k
      → (r ≢ q + block_header) × IsLive m cs r k
  adds_none m' r k e (d, s, at', e', used', le) =
      let at'' : CellAt m.heap_start (freed m cs q) s d =
        subst (λ x. CellAt x (freed m cs q) s d) e at' in
      let old =
        CellAt-mark_inv m.heap_start cs q s d used'
          (CellAt-pair_up_inv m.heap_start (mark m.heap_start cs q) s d used' at'') in
      (λ same. old.0 (omega arith), (d, s, old.1, e', used', le))

-- On a well-formed heap, `kfree` of a pointer to a block in use (of at least one byte) returns; the pointer is no longer
-- held, every other held block is still held, nothing else is, and the heap stays well-formed.
pub kfree-IsFreed :
    (m : Mm) (cs : Cells) (p : Ptr) (k : ℕ)
    → IsHeap m cs
    → IsLive m cs p k
    → 0 < k
    → (m' : Mm) × (cs' : Cells) × (kfree p m ≡ some m') × IsFreed m cs p m' cs'
kfree-IsFreed m cs p k v (c, q, at, e, used, le) pos =
    let (m', ran, v', start, end) = kfree-release m cs q c v at used (omega arith) in
    (
      m',
      freed m cs q,
      rw e ran,
      record {
        heap = v';
        gone = λ j. rw e (fits_none m cs q c v at used (omega arith) j m' start);
        others = λ r j ne. keeps_others m cs q c v at used (omega arith) m' r j start (rw e at ne);
        nothing_else = λ r j l. rw e (adds_none m cs q c v at used (omega arith) m' r j start l);
        arena = (start, end);
      },
    )

-- `kfree` of null, and of an address that `is_valid_pointer` does not accept, returns and changes
-- nothing.
pub kfree_ignored :
    (p : Ptr) (m : Mm) → (p ≡ null) ⊎ (is_valid_pointer m p ≡ false) → kfree p m ≡ some m
unfolding kfree
kfree_ignored p m (inl e) = rw e
kfree_ignored p m (inr e) = ground arith

-- What `is_valid_pointer` accepts lies inside the heap, behind a word that holds the magic number.
pub is_valid_pointer_iff :
    (m : Mm) (p : Ptr)
    → (is_valid_pointer m p ≡ true) ↔ (
        (0 < p)
        × (m.heap_start ≤ p)
        × (p < m.heap_end)
        × ((m.block (sub32 p block_header)).magic ≡ block_magic))
unfolding is_valid_pointer
is_valid_pointer_iff m p = ground arith
