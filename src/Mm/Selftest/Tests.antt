-- ===== src/Mm/Selftest/Tests.antt =====
-- The tests on a heap of one page.
use svetos_kernel.Base.{◌≡◌, refl, true, none, some, Bool, false}
use svetos_kernel.Mm.{
  update, align, better, find_best, split, hand_out, take_block, kmalloc, is_valid_pointer, join,
  coalesce, release, kfree,
}
use svetos_kernel.Mm.Example.{fresh}
use svetos_kernel.Mm.Selftest.{
  Outcome, allocate_blocks, free_blocks, test_multiple_allocations, test_fragmentation,
  test_mixed_sizes,
}

passes : Outcome → Bool
passes none = false
passes (some none) = false
passes (some (some m)) = true

fragmentation_passes : passes (test_fragmentation fresh) ≡ true
unfolding passes test_fragmentation update align better find_best split hand_out take_block kmalloc
    is_valid_pointer join coalesce release kfree
fragmentation_passes = refl

mixed_passes : passes (test_mixed_sizes fresh) ≡ true
unfolding passes test_mixed_sizes update align better find_best split hand_out take_block kmalloc
    is_valid_pointer join coalesce release kfree
mixed_passes = refl

multiple_passes : passes (test_multiple_allocations fresh) ≡ true
unfolding passes test_multiple_allocations allocate_blocks free_blocks update align better find_best
    split hand_out take_block kmalloc is_valid_pointer join coalesce release kfree
multiple_passes = refl
