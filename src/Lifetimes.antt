-- ===== src/Lifetimes.antt =====
-- Clients of the allocator, kernel/src/mm/mm.c, over any sequence of calls: what they hold is a list
-- of the blocks that they were given and have not yet freed, with the sizes they asked for.
pub mod Held
pub mod Separate
mod Tests
use svetos_kernel.Base.{
  ℕ, zero, suc, ◌+◌, ◌^◌, ◌<◌, ◌==◌, Option, none, some, List, [], ◌∷◌, get_elem?, if◌then◌else◌,
}
use svetos_kernel.Allocator.{Ptr, null, Allocator}

abbrev pub Blocks : Type 0
Blocks = List (Ptr × ℕ)

abbrev pub remove : ℕ → Blocks → Blocks
remove i [] = []
remove zero (b ∷ bs) = bs
remove (suc i) (b ∷ bs) = b ∷ remove i bs

-- a call of `kmalloc`, or of `kfree` with the block at a place of the list
pub data Call : Type 0 where
  allocate : ℕ → Call
  release : ℕ → Call

-- A size that is not 0 and does not wrap.
abbrev pub IsSmall : Call → Type 0
IsSmall (allocate n) = (0 < n) × (n + 7 < 2 ^ 32)
IsSmall (release i) = Unit

abbrev pub AllSmall : List Call → Type 0
AllSmall [] = Unit
AllSmall (c ∷ cs) = IsSmall c × AllSmall cs

module _ (A : Allocator) where
  pub record Client : Type 0 where
    pub heap : A.State
    pub held : Blocks

  abbrev pub taken : ℕ → Option (Ptr × A.State) → Client → Option Client
  taken n none c = none
  taken n (some (p, heap)) c =
      if p == null
      then some (record { heap = heap; held = c.held })
      else some (record { heap = heap; held = (p, n) ∷ c.held })

  abbrev pub given_back : ℕ → Option A.State → Client → Option Client
  given_back i none c = none
  given_back i (some heap) c = some (record { heap = heap; held = remove i c.held })

  abbrev pub free_block : ℕ → Option (Ptr × ℕ) → Client → Option Client
  free_block i none c = some c
  free_block i (some (p, n)) c = given_back i (A.kfree p c.heap) c

  -- `none`: a call does not return
  unfoldable pub perform : Call → Client → Option Client
  perform (allocate n) c = taken n (A.kmalloc n c.heap) c
  perform (release i) c = free_block i (get_elem? c.held i) c

  abbrev pub and_then : Option Client → (Client → Option Client) → Option Client
  and_then none k = none
  and_then (some c) k = k c

  unfoldable pub run : List Call → Client → Option Client
  run [] c = some c
  run (call ∷ calls) c = and_then (perform call c) (run calls)
