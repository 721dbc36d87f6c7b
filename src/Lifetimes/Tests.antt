-- ===== src/Lifetimes/Tests.antt =====
-- A client on a heap of one page.
use svetos_kernel.Base.{◌≡◌, refl, some, List, [], ◌∷◌, arith}
use svetos_kernel.Allocator.{Allocator}
use svetos_kernel.Mm.Example.{fresh, one_block, fresh-IsHeap}
use svetos_kernel.Mm.Allocator.{Inv, mm_allocator}
use svetos_kernel.Lifetimes.{Call, allocate, release, Client, run}
use svetos_kernel.Lifetimes.Separate.{AreApart, run-AreApart}

abbrev A : Allocator
A = mm_allocator 4096 (omega arith)

abbrev calls : List Call
calls = allocate 100 ∷ allocate 32 ∷ release 1 ∷ allocate 64 ∷ []

run-AreApart_example :
    (c : Client A) × (run A calls (record { heap = fresh; held = [] }) ≡ some c)
    × Inv 4096 (omega arith) c.heap
    × AreApart A c.held
run-AreApart_example =
    run-AreApart 4096 (omega arith) calls fresh (one_block, fresh-IsHeap, refl)
      (
        (omega arith, omega arith),
        ((omega arith, omega arith), (tt, ((omega arith, omega arith), tt))),
      )
