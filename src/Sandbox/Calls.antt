-- ===== src/Sandbox/Calls.antt =====
-- The operations of kernel/src/sandbox/sandbox.c in any order, by anyone who can call them.
use svetos_kernel.Base.{ℕ, Option, none, some, List, [], ◌∷◌}
use svetos_kernel.Base.Int.{ℤ}
use svetos_kernel.Allocator.{Allocator}
use svetos_kernel.Sandbox.{
  grant_capability, revoke_capability, Sandboxes, sandbox_create, sandbox_destroy, sandbox_alloc,
}

pub data Call : Type 0 where
  creates : Call
  destroys : (sandbox_id : ℤ) → Call
  allocates : (sandbox_id : ℤ) (size : ℕ) → Call
  grants revokes : (sandbox_id : ℤ) (capability : ℕ) → Call

module _ (A : Allocator) where
  abbrev pub on_heap : {B : Type 0} → Option (B × Sandboxes A) → Option (Sandboxes A)
  on_heap none = none
  on_heap (some (b, s)) = some s

  unfoldable pub perform : Call → Sandboxes A → Option (Sandboxes A)
  perform creates s = on_heap (sandbox_create A s)
  perform (destroys sandbox_id) s = on_heap (sandbox_destroy A sandbox_id s)
  perform (allocates sandbox_id size) s = on_heap (sandbox_alloc A sandbox_id size s)
  perform (grants sandbox_id capability) s =
      some (record s { slots = (grant_capability s.slots sandbox_id capability).1 })
  perform (revokes sandbox_id capability) s =
      some (record s { slots = (revoke_capability s.slots sandbox_id capability).1 })

  abbrev pub and_then :
      Option (Sandboxes A) → (Sandboxes A → Option (Sandboxes A)) → Option (Sandboxes A)
  and_then none k = none
  and_then (some s) k = k s

  unfoldable pub run : List Call → Sandboxes A → Option (Sandboxes A)
  run [] s = some s
  run (c ∷ cs) s = and_then (perform c s) (run cs)
