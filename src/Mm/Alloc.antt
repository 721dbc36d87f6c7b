-- ===== src/Mm/Alloc.antt =====
-- What `kmalloc` of kernel/src/mm/mm.c does to a well-formed heap.
pub mod Place
pub mod Blocks
pub mod Served
use mathlib.Core.Option
use svetos_kernel.Base.{
  ℕ, zero, suc, ◌+◌, ◌-◌, ◌*◌, ◌/◌, ◌≤◌, ◌<◌, ◌≡◌, ◌≢◌, ◌⊎◌, inl, inr, refl, Bool, true, false,
  Option, none, some, [], ◌∷◌, ◌^◌, ◌%◌, leb, ◌==◌, Bool-cases, ==-zero, if◌then◌else◌, subst, sym,
  ap, ◌∙◌, add32, bit_and, length, arith,
}
use svetos_kernel.Base.Bits.{bit_and-shifted, bit_and-mask}
use svetos_kernel.Mm.{
  Ptr, null, Mm, block_header, align, rounds, find_best, take_block, kmalloc, split, hand_out,
}
use svetos_kernel.Mm.Layout.{
  Cell, Cells, cell, after, span, held, CellAt, IsAligned, Fits, carve, place, CellAt-bounds,
  CellAt-unique, CellAt-aligned, held-le-span, length-le-span,
}
use svetos_kernel.Mm.Chain.{header, link, Chain, Chain-at, IsHeap, IsLive}
use svetos_kernel.Mm.Fit.{IsChoice, find_best-IsChoice}
use Place.{settle, split-granted, Chain-place}
use Blocks.{
  granted, granted_bounds, span-place, held-place, IsAligned-place, CellAt-place_self,
  CellAt-place_ne, CellAt-place_inv,
}

-- `ALIGN` rounds up to a multiple of 8, after the wrap of `size_t`.
pub align-eq : (n : ℕ) → align n ≡ add32 n 7 / 8 * 8
unfolding align
align-eq n =
    let masked : bit_and (add32 n 7 / 8) 0x1FFFFFFF ≡ add32 n 7 / 8 % 2 ^ 29 =
      bit_and-mask 29 (add32 n 7 / 8) in
    bit_and-shifted 3 (add32 n 7) 0x1FFFFFFF ∙ omega (arith, masked)

-- the outcome of the search, for a request of `n` bytes after alignment
pub record IsSearch (m : Mm) (cs : Cells) (n : ℕ) (q : Ptr) : Type 0 where
  pub found : find_best m.block n (rounds m) m.first_block null ≡ some q
  pub origin : (q ≡ null) ⊎ ((c : Cell) × CellAt m.heap_start cs q c × Fits n c)
  pub least :
      (r : Ptr) (c : Cell)
      → CellAt m.heap_start cs r c
      → Fits n c
      → (q ≢ null) × ((m.block q).size ≤ c.size) × ((m.block q).size ≡ c.size → q ≤ r)

link-first : (p : Ptr) (cs : Cells) → cs ≢ [] → link p cs ≡ p
link-first p [] h = absurd (h refl)
link-first p (c ∷ cs) h = refl

-- The loop ends, and finds the best fit.
pub search : (m : Mm) (cs : Cells) (n : ℕ) → IsHeap m cs → (q : Ptr) × IsSearch m cs n q
search m cs n v =
    let (q, found, choice) =
      find_best-IsChoice m.block n (rounds m) m.heap_start cs null v.chain v.start (omega arith)
        (omega (arith, length-le-span cs, v.ends)) in
    let first : link m.heap_start cs ≡ m.first_block =
      link-first m.heap_start cs v.filled ∙ sym v.first in
    (q, record { found = rw first at found; origin = choice.origin; least = choice.least })

place-ne-nil : (n : ℕ) (p : Ptr) (cs : Cells) (q : Ptr) → cs ≢ [] → place n p cs q ≢ []
unfolding place carve
place-ne-nil n p [] q h = absurd (h refl)
place-ne-nil n p (c ∷ cs) q h = ground arith

module _ (m : Mm) (cs : Cells) (n : ℕ) (q : Ptr) (c : Cell) (v : IsHeap m cs) (aligned : n % 8 ≡ 0)
    (at : CellAt m.heap_start cs q c) (f : Fits n c) where
  charged : (split m.block n q q).size ≡ granted n c
  charged =
      split-granted m.block n q c f
        (omega (arith, v.ends, v.small, CellAt-bounds m.heap_start cs q c at))
        (Chain-at m.block m.heap_start cs q c v.chain at).0

  held-place-small : held (place n m.heap_start cs q) < 2 ^ 32
  held-place-small = omega (
    arith,
    held-le-span (place n m.heap_start cs q),
    span-place n m.heap_start cs q c at f.1,
    v.ends,
    v.small,
  )

  pub hand_out-IsHeap : IsHeap (hand_out m n q) (place n m.heap_start cs q)
  unfolding hand_out
  hand_out-IsHeap = record {
    first = v.first;
    start = v.start;
    chain = Chain-place m.block n m.heap_start cs q c at f (omega (arith, v.ends, v.small)) v.chain;
    ends = rw (span-place n m.heap_start cs q c at f.1) v.ends;
    filled = place-ne-nil n m.heap_start cs q v.filled;
    small = v.small;
    page = v.page;
    aligned = IsAligned-place n m.heap_start cs q aligned v.aligned;
    counted =
        omega (arith, charged, held-place-small, v.counted, held-place n m.heap_start cs q c at f);
    sized = rw (span-place n m.heap_start cs q c at f.1) v.sized;
  }

  pub take_block-eq : take_block m n q ≡ (q + block_header, hand_out m n q)
  unfolding take_block
  take_block-eq =
      let b = CellAt-bounds m.heap_start cs q c at in
      let miss : (q == null) ≡ false = ==-zero q (omega (arith, v.start)) in
      let sum : add32 q block_header ≡ q + block_header = omega (arith, v.ends, v.small) in
      rw (miss, sum)

take_block-null : (m : Mm) (n : ℕ) (q : Ptr) → q ≡ null → take_block m n q ≡ (null, m)
unfolding take_block
take_block-null m n q e = rw e

pub align-mod : (n : ℕ) → align n % 8 ≡ 0
align-mod n = omega (arith, align-eq n)

-- What `kmalloc` may return on a well-formed heap, for `n` bytes after alignment: the block of a
-- best fit, or null where no free block is large enough.
pub data Returned (m : Mm) (cs : Cells) (n : ℕ) : Option (Ptr × Mm) → Type 0 where
  served :
      {q : Ptr} {c : Cell}
      → CellAt m.heap_start cs q c
      → Fits n c
      → ((r : Ptr) (d : Cell)
          → CellAt m.heap_start cs r d
          → Fits n d
          → (c.size ≤ d.size) × (c.size ≡ d.size → q ≤ r))
      → Returned m cs n (some (q + block_header, hand_out m n q))
  refused :
      ((r : Ptr) (d : Cell) → CellAt m.heap_start cs r d → ¬ Fits n d)
      → Returned m cs n (some (null, m))

-- On a well-formed heap, a request of a non-zero size is served by the smallest free block that
-- holds it after alignment (of equal ones the one at the lowest address), or refused with the heap
-- unchanged where there is none; the search ends.
pub kmalloc_lem :
    (size : ℕ) (m : Mm) (cs : Cells)
    → IsHeap m cs
    → 0 < size
    → Returned m cs (align size) (kmalloc size m)
unfolding kmalloc
kmalloc_lem size m cs v pos =
    let (q, s) = search m cs (align size) v in
    rw (==-zero size pos, ==-zero m.heap_start v.start, s.found) (conclude q s s.origin)
  where
    conclude :
        (q : Ptr)
        → IsSearch m cs (align size) q
        → (q ≡ null) ⊎ ((c : Cell) × CellAt m.heap_start cs q c × Fits (align size) c)
        → Returned m cs (align size) (some (take_block m (align size) q))
    conclude q s (inl e) =
        subst (λ x. Returned m cs (align size) (some x)) (sym (take_block-null m (align size) q e))
          (refused λ r d at f. (s.least r d at f).0 e)
    conclude q s (inr (c, at, f)) =
        let shown = (Chain-at m.block m.heap_start cs q c v.chain at).0 in
        subst (λ x. Returned m cs (align size) (some x))
          (sym (take_block-eq m cs (align size) q c v (align-mod size) at f))
          (served at f
            λ r d at' f'. let l = s.least r d at' f' in (omega arith, λ e. l.2 (shown ∙ e)))
