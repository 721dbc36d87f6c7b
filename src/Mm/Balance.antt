-- ===== src/Mm/Balance.antt =====
-- What `kmalloc` takes in kernel/src/mm/mm.c, `kfree` gives back.
use svetos_kernel.Base.{
  ℕ, ◌+◌, ◌^◌, ◌<◌, ◌≡◌, ◌≢◌, refl, false, Option, some, subst₂, sym, ◌∙◌, arith,
}
use svetos_kernel.Mm.{Ptr, null, Mm, block_header, align, hand_out, kmalloc, kfree}
use svetos_kernel.Mm.Layout.{Cells, cell, place}
use svetos_kernel.Mm.Chain.{IsHeap}
use svetos_kernel.Mm.Alloc.{
  align-eq, align-mod, hand_out-IsHeap, Returned, served, refused, kmalloc_lem,
}
use svetos_kernel.Mm.Alloc.Blocks.{granted, granted_bounds, CellAt-place_self}
use svetos_kernel.Mm.Free.{kfree-release}
use svetos_kernel.Mm.Limits.{held-freed}

Balanced : Mm → Ptr → Mm → Type 0
Balanced m p m' =
    (m'' : Mm) × (kfree p m' ≡ some m'') × (m''.mm_stats.allocated ≡ m.mm_stats.allocated)

module _ (m : Mm) (cs : Cells) (size : ℕ) (v : IsHeap m cs) (pos : 0 < size)
    (small : size + 7 < 2 ^ 32) where
  balanced :
      (o : Option (Ptr × Mm)) (p : Ptr) (m' : Mm)
      → Returned m cs (align size) o
      → o ≡ some (p, m')
      → p ≢ null
      → Balanced m p m'
  unfolding Balanced hand_out
  balanced o p m' (served {q} {c} at f _) e ne =
      let first : q + block_header ≡ p = ground arith in
      let state : hand_out m (align size) q ≡ m' = ground arith in
      let taken = hand_out-IsHeap m cs (align size) q c v (align-mod size) at f in
      let (m'', ran, v'', _, _) =
        kfree-release (hand_out m (align size) q) (place (align size) m.heap_start cs q) q
          (cell (granted (align size) c) false) taken
          (CellAt-place_self (align size) m.heap_start cs q c at) refl
          (omega (arith, granted_bounds (align size) c f.1, align-eq size)) in
      (
        m'',
        subst₂ (λ x y. kfree x y ≡ some m'') first state ran,
        v''.counted ∙ held-freed m cs (align size) q c at f ∙ sym v.counted,
      )
  balanced o p m' (refused unfit) e ne = absurd (ne (ground arith))

  -- On a well-formed heap, `kfree` of what `kmalloc` has just returned for a non-zero size returns,
  -- and leaves the count of allocated bytes as it was before the two calls. (The size is at most
  -- 2 ^ 32 - 8.)
  pub kfree-kmalloc :
      (p : Ptr) (m' : Mm)
      → kmalloc size m ≡ some (p, m')
      → p ≢ null
      → (m'' : Mm) × (kfree p m' ≡ some m'') × (m''.mm_stats.allocated ≡ m.mm_stats.allocated)
  unfolding Balanced
  kfree-kmalloc p m' ran ne = balanced (kmalloc size m) p m' (kmalloc_lem size m cs v pos) ran ne
