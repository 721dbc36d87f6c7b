-- ===== src/Mm/Selftest/Pass.antt =====
-- When the tests of modules/tests/kernel/mm/mm_tests.c pass.
use svetos_kernel.Base.{
  ◌*◌, ◌^◌, ◌<◌, ◌≡◌, ◌≢◌, ◌⊎◌, inl, inr, refl, false, none, some, ◌==◌, Bool-cases, ◌∙◌, subst,
  arith,
}
use svetos_kernel.Mm.{Ptr, null, Mm, align, kmalloc}
use svetos_kernel.Mm.Layout.{Cell, Cells, CellAt, CellAt-bounds, Fits, span}
use svetos_kernel.Mm.Chain.{IsHeap}
use svetos_kernel.Mm.Alloc.{align-eq}
use svetos_kernel.Mm.Alloc.Served.{
  kmalloc-IsHeap, kmalloc-IsServed, kmalloc_unchanged, kmalloc_null_iff,
}
use svetos_kernel.Mm.Balance.{kfree-kmalloc}
use svetos_kernel.Mm.Free.{kfree-IsFreed}
use svetos_kernel.Mm.Selftest.{Outcome, passed, test_basic_allocation, test_oversized_allocation}

-- the test passes, and leaves a well-formed heap with the count of allocated bytes as before
abbrev pub PassesOn : Mm → Outcome → Type 0
PassesOn m o =
    (m' : Mm) × (cs' : Cells) × (o ≡ passed m')
    × IsHeap m' cs'
    × (m'.mm_stats.allocated ≡ m.mm_stats.allocated)

basic-served :
    (m : Mm) (cs : Cells) (p : Ptr) (m1 : Mm)
    → IsHeap m cs
    → kmalloc 32 m ≡ some (p, m1)
    → p ≢ null
    → PassesOn m (test_basic_allocation m)
unfolding test_basic_allocation
basic-served m cs p m1 v ran ne =
    let (cs1, s) = kmalloc-IsServed 32 m cs p m1 v (omega arith) ran ne in
    let (m2, cs2, ran2, f) = kfree-IsFreed m1 cs1 p 32 s.heap s.live (omega arith) in
    let (m3, ran3, same) = kfree-kmalloc m cs 32 v (omega arith) (omega arith) p m1 ran ne in
    let one : m3 ≡ m2 = ground arith in
    let there : (p == null) ≡ false = ground arith in
    (
      m2,
      cs2,
      rw (ran, there, ran2) refl,
      f.heap,
      subst (λ z. z.mm_stats.allocated ≡ m.mm_stats.allocated) one same,
    )

-- On a well-formed heap of less than 1 GB the test of an oversized block passes and changes
-- nothing; and the basic test returns: it panics only if no free block holds 32 bytes, and else it
-- passes and leaves a well-formed heap with as many bytes allocated as before.
pub mm_tests-pass :
    (m : Mm) (cs : Cells)
    → IsHeap m cs
    → span cs < 2 ^ 30
    → (test_oversized_allocation m ≡ passed m)
      × (PassesOn m (test_basic_allocation m)
          ⊎ ((test_basic_allocation m ≡ some none)
              × ((r : Ptr) (d : Cell) → CellAt m.heap_start cs r d → ¬ Fits 32 d)))
unfolding test_oversized_allocation test_basic_allocation
mm_tests-pass m cs v small =
    let big : align (1024 * 1024 * 1024) ≡ 2 ^ 30 = omega (arith, align-eq (1024 * 1024 * 1024)) in
    let exact : align 32 ≡ 32 = omega (arith, align-eq 32) in
    let refused =
      (kmalloc_null_iff (1024 * 1024 * 1024) m cs v (omega arith)).1
        (λ r d at f. omega (arith, f.1, big, CellAt-bounds m.heap_start cs r d at)) in
    let (p, m1, cs1, ran, _) = kmalloc-IsHeap 32 m cs v in
    (
      rw refused refl,
      elim (Bool-cases (p == null)) [
        | inl out ↦
            let none_left : p ≡ null = ground arith in
            let same = kmalloc_unchanged 32 m cs p m1 v ran none_left in
            let full : kmalloc 32 m ≡ some (null, m) = ran ∙ cc in
            inr (
              rw full refl,
              λ r d at f.
                  (kmalloc_null_iff 32 m cs v (omega arith)).0 full r d at
                    (f.0, omega (arith, f.1, exact)),
            )
        | inr got ↦ inl (basic-served m cs p m1 v ran (ground arith))
      ],
    )
