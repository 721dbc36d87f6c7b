-- ===== src/Sandbox.antt =====
-- Sandboxes and their capabilities, kernel/src/sandbox/sandbox.c and
-- include/kernel/sandbox/sandbox.h. `none` as a result of an operation: a call of the allocator
-- does not return.
pub mod Inv
pub mod Create
pub mod Memory
pub mod Permission
pub mod Calls
pub mod Altered
pub mod Escalation
mod Tests
use mathlib.Core.Option
use svetos_kernel.Base.{
  ℕ, zero, suc, ◌+◌, ◌-◌, ◌<◌, Bool, true, false, ◌&&◌, not, Option, none, some, List, [], ◌∷◌, ltb,
  leb, ◌==◌, if◌then◌else◌, bit_and, bit_or, not32, get_or, set, length, replicate,
}
use svetos_kernel.Base.Int.{ℤ, pos, negsuc}
use svetos_kernel.Allocator.{Ptr, null, Allocator}

-- `sandbox_t`; `used` is 0 or 1
pub record Slot : Type 0 where
  pub used : Bool
  pub id : ℕ
  pub capabilities : ℕ
  pub memory_ptr : Ptr

abbrev pub sandbox_memory_size : ℕ
sandbox_memory_size = 4096

abbrev pub cap_access_memory : ℕ
cap_access_memory = 8

abbrev pub cap_syscall : ℕ
cap_syscall = 16

abbrev pub cap_ipc : ℕ
cap_ipc = 32

abbrev pub sys_ipc_send : ℕ
sys_ipc_send = 1

-- A slot for reads out of range, which the code never makes.
abbrev pub blank : Slot
blank = record { used = false; id = 0; capabilities = 0; memory_ptr = null }

-- the index of the first slot that is not in use
unfoldable pub first_free : List Slot → Option ℕ
first_free [] = none
first_free (x ∷ xs) = if x.used then Option.map suc (first_free xs) else some 0

-- `sandbox_id < 0 || sandbox_id >= 32 || !sandboxes[sandbox_id].used`, with the index if it passes
unfoldable pub lookup : List Slot → ℤ → Option ℕ
lookup slots (pos i) =
    if leb 32 i then none else if (get_or slots i blank).used then some i else none
lookup slots (negsuc i) = none

-- an early return, or the rest of the operation at the slot's index
abbrev pub on_slot {ℓ} : {B : Type ℓ} → Option ℕ → B → (ℕ → B) → B
on_slot none otherwise k = otherwise
on_slot (some i) otherwise k = k i

-- `sandbox_check_permission`
unfoldable pub check_permission : List Slot → ℤ → ℕ → Bool
check_permission slots sandbox_id required_caps =
    on_slot (lookup slots sandbox_id) false
      λ i. bit_and (get_or slots i blank).capabilities required_caps == required_caps

-- `sandbox_grant_capability` and `sandbox_revoke_capability`, with their result
unfoldable pub grant_capability : List Slot → ℤ → ℕ → Bool × List Slot
grant_capability slots sandbox_id capability =
    on_slot (lookup slots sandbox_id) (false, slots)
      λ i.
        let x = get_or slots i blank in
        (true, set slots i (record x { capabilities = bit_or x.capabilities capability }))

unfoldable pub revoke_capability : List Slot → ℤ → ℕ → Bool × List Slot
revoke_capability slots sandbox_id capability =
    on_slot (lookup slots sandbox_id) (false, slots)
      λ i.
        let x = get_or slots i blank in
        (true, set slots i (record x { capabilities = bit_and x.capabilities (not32 capability) }))

-- the test of an `int` against a constant that is not negative
abbrev pub is_number : ℤ → ℕ → Bool
is_number (pos n) k = n == k
is_number (negsuc n) k = false

-- `sandbox_syscall`; `true` stands for its result 0 and `false` for -1
unfoldable pub syscall : List Slot → (sandbox_id syscall_num : ℤ) → Bool
syscall slots sandbox_id syscall_num =
    if not (check_permission slots sandbox_id cap_syscall)
    then false
    else if is_number syscall_num sys_ipc_send
    then check_permission slots sandbox_id cap_ipc
    else false

module _ (A : Allocator) where
  open A use {State, kmalloc, kfree}

  -- the file's variables, with the allocator's state
  pub record Sandboxes : Type 0 where
    pub slots : List Slot
    pub count : ℕ
    pub heap : State

  -- `sandbox_init`: the array has 32 slots
  unfoldable pub clear_used : List Slot → List Slot
  clear_used [] = []
  clear_used (x ∷ xs) = record x { used = false } ∷ clear_used xs

  unfoldable pub sandbox_init : Sandboxes → Sandboxes
  unfolding clear_used
  sandbox_init s = record s { slots = clear_used s.slots; count = 0 }

  -- what follows `kmalloc` in `sandbox_create`, at the slot `i` that is marked in use
  unfoldable pub settle : ℕ → Option (Ptr × State) → Sandboxes → Option (Option ℕ × Sandboxes)
  settle i none s = none
  settle i (some (p, heap)) s =
      let x = record (get_or s.slots i blank) { memory_ptr = p } in
      if p == null
      then some (
        none,
        record s {
          slots = set s.slots i (record x { used = false });
          count = s.count - 1;
          heap = heap;
        },
      )
      else some (some i, record s { slots = set s.slots i x; heap = heap })

  -- marks the slot `i` and counts it
  unfoldable pub claim : ℕ → Sandboxes → Sandboxes
  claim i s = record s {
    slots =
        set s.slots i (record (get_or s.slots i blank) { used = true; id = i; capabilities = 0 });
    count = s.count + 1;
  }

  -- `none` as the inner result is -1.
  unfoldable pub sandbox_create : Sandboxes → Option (Option ℕ × Sandboxes)
  sandbox_create s =
      if leb 32 s.count
      then some (none, s)
      else on_slot (first_free s.slots) (some (none, s))
          λ i. settle i (kmalloc sandbox_memory_size s.heap) (claim i s)

  unfoldable pub sandbox_destroy : ℤ → Sandboxes → Option (Bool × Sandboxes)
  sandbox_destroy sandbox_id s = on_slot (lookup s.slots sandbox_id) (some (false, s)) λ i.
      let x = get_or s.slots i blank in
      Option.map
        (λ heap. (
          true,
          record s {
            slots = set s.slots i (record x { used = false });
            count = s.count - 1;
            heap = heap;
          },
        ))
        (kfree x.memory_ptr s.heap)

  unfoldable pub sandbox_alloc : ℤ → ℕ → Sandboxes → Option (Ptr × Sandboxes)
  sandbox_alloc sandbox_id size s =
      if not (check_permission s.slots sandbox_id cap_access_memory)
      then some (null, s)
      else Option.map (λ (p, heap). (p, record s { heap = heap })) (kmalloc size s.heap)
