-- ===== src/Sandbox/Tests.antt =====
-- Sandboxes on the kernel's own allocator.
use svetos_kernel.Base.{
  ℕ, zero, suc, ◌+◌, ◌<◌, ◌≡◌, ◌≢◌, ◌⊎◌, ◌↔◌, refl, true, false, ◌&&◌, not, none, some, List, [],
  ◌∷◌, replicate, get_or, set, arith,
}
use svetos_kernel.Base.Int.{ℤ, pos, negsuc}
use svetos_kernel.Base.Bits.{test_bit}
use svetos_kernel.Allocator.{Ptr, null, Allocator}
use svetos_kernel.Mm.Example.{
  fresh, one_block, fresh-IsHeap, large, large_block, large-IsHeap, large_used, kmalloc_large_runs,
}
use svetos_kernel.Mm.Alloc.Served.{kmalloc-IsServed}
use svetos_kernel.Mm.Allocator.{mm_allocator, serves_one}
use svetos_kernel.Sandbox.{
  Slot, blank, lookup, cap_access_memory, check_permission, revoke_capability, syscall, Sandboxes,
  clear_used, sandbox_init, sandbox_destroy, sandbox_alloc,
}
use svetos_kernel.Sandbox.Permission.{
  Covers, IsUsed, check_permission_iff, revoke_capability_lem, syscall_iff,
}
use svetos_kernel.Sandbox.Inv.{used_count, IsSandboxes, sandbox_init-IsSandboxes, set-IsSandboxes}
use svetos_kernel.Sandbox.Create.{Created, sandbox_create_lem}
use svetos_kernel.Sandbox.Calls.{Call, creates, destroys, grants, run}
use svetos_kernel.Sandbox.Escalation.{run-denies}
use svetos_kernel.Sandbox.Memory.{sandbox_destroy_lem, sandbox_alloc_lem}

abbrev A : Allocator
A = mm_allocator 4096 (omega arith)

abbrev boot : Sandboxes A
boot = record { slots = replicate 32 blank; count = 7; heap = fresh }

abbrev start : Sandboxes A
start = sandbox_init A boot

start-IsSandboxes : IsSandboxes A start
start-IsSandboxes = (sandbox_init-IsSandboxes A boot refl (one_block, fresh-IsHeap, refl)).0

-- one sandbox, numbered 0, that may access memory and send messages
abbrev only : Slot
only = record { used = true; id = 0; capabilities = 56; memory_ptr = 4112 }

abbrev table : List Slot
table = only ∷ replicate 31 blank

only-IsUsed : IsUsed table 0
only-IsUsed = record { small = omega arith; inside = omega arith; used = refl }

check_permission_iff_example :
    (check_permission table (pos 0) 24 ≡ true) ↔ Covers (get_or table 0 blank).capabilities 24
check_permission_iff_example = check_permission_iff table 0 24 only-IsUsed

revoke_capability_lem_example :
    let (revoked, slots') = revoke_capability table (pos 0) 8 in
    (revoked ≡ true)
    × ((b : ℕ)
        → b < 32
        → test_bit (get_or slots' 0 blank).capabilities b
          ≡ (test_bit (get_or table 0 blank).capabilities b && not (test_bit 8 b)))
    × ((req b : ℕ)
        → b < 32
        → test_bit 8 b ≡ true
        → test_bit req b ≡ true
        → check_permission slots' (pos 0) req ≡ false)
    × ((j req : ℕ)
        → 0 ≢ j
        → check_permission slots' (pos j) req ≡ check_permission table (pos j) req)
revoke_capability_lem_example = revoke_capability_lem table 0 8 only-IsUsed (omega arith)

syscall_iff_example :
    (IsUsed table 0
      → (syscall table (pos 0) (pos 1) ≡ true) ↔ (
          (◌≡◌ {A = ℤ} (pos 1) (pos 1))
          × (test_bit (get_or table 0 blank).capabilities 4 ≡ true)
          × (test_bit (get_or table 0 blank).capabilities 5 ≡ true)))
    × (lookup table (negsuc 0) ≡ none → syscall table (negsuc 0) (pos 1) ≡ false)
syscall_iff_example = syscall_iff table 0 (negsuc 0) (pos 1)

sandbox_create_lem_example : Created A start start-IsSandboxes
sandbox_create_lem_example = sandbox_create_lem A start start-IsSandboxes

-- the same table on a heap with room for its memory
abbrev roomy : Sandboxes A
roomy = record { slots = replicate 32 blank; count = 0; heap = large }

abbrev taken : Sandboxes A
taken = record { slots = set roomy.slots 0 only; count = 1; heap = large_used }

roomy-IsSandboxes : IsSandboxes A roomy
unfolding sandbox_init clear_used
roomy-IsSandboxes = (sandbox_init-IsSandboxes A roomy refl (large_block, large-IsHeap, refl)).0

blank_slots : (n i : ℕ) → (get_or (replicate n blank) i blank).used ≡ false
blank_slots zero i = refl
blank_slots (suc n) zero = refl
blank_slots (suc n) (suc i) = blank_slots n i

taken-IsSandboxes : IsSandboxes A taken
unfolding used_count
taken-IsSandboxes =
    let (cs, out) =
      kmalloc-IsServed 4096 large large_block 4112 large_used large-IsHeap (omega arith)
        kmalloc_large_runs (omega arith) in
    let a =
      serves_one 4096 (omega arith) 4096 large large_block 4112 large_used cs large-IsHeap refl
        out in
    set-IsSandboxes A roomy 0 only large_used roomy-IsSandboxes
      (record {
        inside = omega arith;
        inv = (cs, out.heap, out.arena.0);
        numbered = λ u. refl;
        owned = λ u. a.owned;
        kept = λ j ne u. absurd (ground (arith, blank_slots 32 j));
        other = λ j ne u w. absurd (ground (arith, blank_slots 32 j));
      })
      1 refl

sandbox_destroy_lem_example :
    (s' : Sandboxes A) × (sandbox_destroy A (pos 0) taken ≡ some (true, s'))
    × IsSandboxes A s'
    × ((get_or s'.slots 0 blank).used ≡ false)
    × (s'.count + 1 ≡ taken.count)
    × ((k : ℕ) → ¬ A.Owned s'.heap (get_or taken.slots 0 blank).memory_ptr k)
    × ((j : ℕ) → 0 ≢ j → get_or s'.slots j blank ≡ get_or taken.slots j blank)
sandbox_destroy_lem_example = sandbox_destroy_lem A taken taken-IsSandboxes 0 only-IsUsed

sandbox_alloc_lem_example :
    (p : Ptr) × (s' : Sandboxes A) × (sandbox_alloc A (pos 0) 64 taken ≡ some (p, s'))
    × IsSandboxes A s'
    × (s'.slots ≡ taken.slots)
    × ((p ≡ null)
        ⊎ ((check_permission taken.slots (pos 0) cap_access_memory ≡ true)
            × A.Owned s'.heap p 64
            × ((j : ℕ)
                → (get_or taken.slots j blank).used ≡ true
                → (get_or taken.slots j blank).memory_ptr ≢ p)))
sandbox_alloc_lem_example = sandbox_alloc_lem A taken taken-IsSandboxes (pos 0) 64 (omega arith)

abbrev calls : List Call
calls = grants (pos 0) 8 ∷ destroys (pos 0) ∷ creates ∷ grants (pos 1) 2 ∷ []

run-denies_example :
    (s' : Sandboxes A) × (run A calls taken ≡ some s')
    × IsSandboxes A s'
    × ((req : ℕ) → test_bit req 1 ≡ true → check_permission s'.slots (pos 0) req ≡ false)
run-denies_example =
    run-denies A 0 1 calls taken taken-IsSandboxes (λ u. refl)
      (λ e. refl, (tt, (tt, (λ e. absurd (ground arith), tt))))
