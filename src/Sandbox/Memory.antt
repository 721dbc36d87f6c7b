-- ===== src/Sandbox/Memory.antt =====
-- How a sandbox's memory is given back, and what else it gets, kernel/src/sandbox/sandbox.c.
use svetos_kernel.Base.{
  ℕ, ◌+◌, ◌-◌, ◌<◌, ◌^◌, ◌≡◌, ◌≢◌, ◌⊎◌, inl, inr, refl, true, false, some, get_or, set, ap, sym,
  subst, Bool-cases, get_or-set_self, get_or-set_ne, arith,
}
use svetos_kernel.Base.Int.{ℤ, pos}
use svetos_kernel.Allocator.{Ptr, null, Allocator}
use svetos_kernel.Sandbox.{
  Slot, blank, sandbox_memory_size, cap_access_memory, check_permission, Sandboxes, sandbox_destroy,
  sandbox_alloc,
}
use svetos_kernel.Sandbox.Permission.{IsUsed, lookup-used}
use svetos_kernel.Sandbox.Create.{count_at}
use svetos_kernel.Sandbox.Inv.{bit, IsSandboxes, set-IsSandboxes}

module _ (A : Allocator) (s : Sandboxes A) (v : IsSandboxes A s) where
  -- On a well-formed table, `sandbox_destroy` of a sandbox in use returns 1 and keeps the table
  -- well-formed: the sandbox is gone, its memory is free, and the other slots are as before.
  pub sandbox_destroy_lem :
      (i : ℕ)
      → IsUsed s.slots i
      → (s' : Sandboxes A) × (sandbox_destroy A (pos i) s ≡ some (true, s'))
        × IsSandboxes A s'
        × ((get_or s'.slots i blank).used ≡ false)
        × (s'.count + 1 ≡ s.count)
        × ((k : ℕ) → ¬ A.Owned s'.heap (get_or s.slots i blank).memory_ptr k)
        × ((j : ℕ) → i ≢ j → get_or s'.slots j blank ≡ get_or s.slots j blank)
  unfolding sandbox_destroy
  sandbox_destroy_lem i u =
      let x = get_or s.slots i blank in
      let y = record x { used = false } in
      let (heap, ran, inv, r) =
        A.kfree_lem x.memory_ptr sandbox_memory_size s.heap v.inv (v.owned i u.used)
          (omega arith) in
      let counted = count_at A s v i y u.small in
      (
        record { slots = set s.slots i y; count = s.count - 1; heap = heap },
        rw (lookup-used s.slots i u, ran),
        set-IsSandboxes A s i y heap v
            (record {
              inside = u.small;
              inv = inv;
              numbered = λ w. absurd (ground arith);
              owned = λ w. absurd (ground arith);
              kept = λ j ne w.
                  r.kept (get_or s.slots j blank).memory_ptr sandbox_memory_size
                    (λ same. ne (sym (v.apart j i w u.used same))) (v.owned j w);
              other = λ j ne w w' same. absurd (ground arith);
            })
            (s.count - 1) (omega (arith, counted, ap bit u.used)),
        ap (λ (z : Slot). z.used) (get_or-set_self s.slots i y blank u.inside),
        omega (arith, counted, ap bit u.used),
        r.gone,
        λ j ne. get_or-set_ne s.slots i j y blank ne,
      )

  -- On a well-formed table, `sandbox_alloc` of at most 2 ^ 32 - 8 bytes returns, keeps the table
  -- well-formed and changes no slot. What is not null it gives only to a sandbox with the
  -- capability for memory: a block of the size asked for that is no sandbox's own memory.
  pub sandbox_alloc_lem :
      (sandbox_id : ℤ) (size : ℕ)
      → size + 7 < 2 ^ 32
      → (p : Ptr) × (s' : Sandboxes A) × (sandbox_alloc A sandbox_id size s ≡ some (p, s'))
        × IsSandboxes A s'
        × (s'.slots ≡ s.slots)
        × ((p ≡ null)
            ⊎ ((check_permission s.slots sandbox_id cap_access_memory ≡ true)
                × A.Owned s'.heap p size
                × ((j : ℕ)
                    → (get_or s.slots j blank).used ≡ true
                    → (get_or s.slots j blank).memory_ptr ≢ p)))
  unfolding sandbox_alloc
  sandbox_alloc_lem sandbox_id size small =
      elim (Bool-cases (check_permission s.slots sandbox_id cap_access_memory)) [
        | inl allowed ↦
            let (p, heap, ran, inv, out) = A.kmalloc_lem size s.heap v.inv small in
            elim out [
              | inl (z, same) ↦ (p, s, rw (allowed, ran, same), v, refl, inl z)
              | inr (ne, a) ↦ (
                p,
                record s { heap = heap },
                rw (allowed, ran),
                record {
                  long = v.long;
                  counted = v.counted;
                  inv = inv;
                  numbered = v.numbered;
                  owned = λ i u.
                      a.kept (get_or s.slots i blank).memory_ptr sandbox_memory_size (v.owned i u);
                  apart = v.apart;
                },
                refl,
                inr (
                  allowed,
                  a.owned,
                  λ j u same.
                      a.fresh sandbox_memory_size
                        (subst (λ z. A.Owned s.heap z sandbox_memory_size) same (v.owned j u)),
                ),
              )
            ]
        | inr denied ↦ (null, s, rw denied, v, refl, inl refl)
      ]
