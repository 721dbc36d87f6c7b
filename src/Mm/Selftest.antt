-- ===== src/Mm/Selftest.antt =====
-- The memory manager's own tests, modules/tests/kernel/mm/mm_tests.c, as programs on the allocator.
-- `none`: a call does not return; `some none`: an assertion failed, and `panic` halts the kernel.
pub mod Pass
mod Tests
use svetos_kernel.Base.{
  ℕ, zero, suc, ◌+◌, ◌*◌, Bool, true, false, not, ◌&&◌, Option, none, some, List, [], ◌∷◌, ◌++◌,
  ◌==◌,
}
use svetos_kernel.Mm.{Ptr, null, Mm, kmalloc, kfree}

abbrev pub Outcome : Type 0
Outcome = Option (Option Mm)

-- a call of `kmalloc` or of `kfree`, and then the rest of the test
abbrev pub allocated : Option (Ptr × Mm) → (Ptr → Mm → Outcome) → Outcome
allocated none k = none
allocated (some (p, m)) k = k p m

abbrev pub freed : Option Mm → (Mm → Outcome) → Outcome
freed none k = none
freed (some m) k = k m

-- `ASSERT`
abbrev pub assert : Bool → Outcome → Outcome
assert true rest = rest
assert false rest = some none

abbrev pub is_block : Ptr → Bool
is_block p = not (p == null)

abbrev pub passed : Mm → Outcome
passed m = some (some m)

unfoldable pub test_basic_allocation : Mm → Outcome
test_basic_allocation m =
    allocated (kmalloc 32 m) λ ptr m1. assert (is_block ptr) (freed (kfree ptr m1) passed)

unfoldable pub test_oversized_allocation : Mm → Outcome
test_oversized_allocation m =
    allocated (kmalloc (1024 * 1024 * 1024) m) λ large m1. assert (large == null) (passed m1)

-- the two loops of `test_multiple_allocations`
unfoldable pub free_blocks : List Ptr → Mm → Outcome
free_blocks [] m = passed m
free_blocks (p ∷ ps) m = freed (kfree p m) (free_blocks ps)

unfoldable pub allocate_blocks : ℕ → List Ptr → Mm → Outcome
unfolding free_blocks
allocate_blocks zero blocks m = free_blocks blocks m
allocate_blocks (suc left) blocks m =
    allocated (kmalloc 32 m)
      λ p m1. assert (is_block p) (allocate_blocks left (blocks ++ (p ∷ [])) m1)

unfoldable pub test_multiple_allocations : Mm → Outcome
unfolding allocate_blocks
test_multiple_allocations m = allocate_blocks 10 [] m

unfoldable pub test_fragmentation : Mm → Outcome
test_fragmentation m = allocated (kmalloc 128 m) λ block1 m1.
    allocated (kmalloc 128 m1) λ block2 m2. freed (kfree block1 m2) λ m3.
      allocated (kmalloc 256 m3) λ new_block m4.
        assert (is_block new_block)
          (freed (kfree block2 m4) λ m5. freed (kfree new_block m5) passed)

unfoldable pub test_mixed_sizes : Mm → Outcome
test_mixed_sizes m = allocated (kmalloc 8 m) λ p1 m1. allocated (kmalloc 16 m1) λ p2 m2.
    allocated (kmalloc 32 m2) λ p3 m3. assert (is_block p1 && (is_block p2 && is_block p3)) (
      freed (kfree p2 m3) λ m4. allocated (kmalloc 16 m4) λ p4 m5.
        assert (is_block p4)
          (freed (kfree p1 m5) λ m6. freed (kfree p3 m6) λ m7. freed (kfree p4 m7) passed))

-- one test after the other, as long as none panics
abbrev pub followed : Outcome → (Mm → Outcome) → Outcome
followed none k = none
followed (some none) k = some none
followed (some (some m)) k = k m

unfoldable pub mm_run_all_tests : Mm → Outcome
mm_run_all_tests m =
    followed
      (followed
        (followed (followed (test_basic_allocation m) test_oversized_allocation)
          test_multiple_allocations)
        test_fragmentation)
      test_mixed_sizes
