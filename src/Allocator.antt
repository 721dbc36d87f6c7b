-- ===== src/Allocator.antt =====
-- What the rest of the kernel uses of the memory manager: include/kernel/mm/kmalloc.h and
-- include/kernel/mm/mm.h. `Mm/Allocator.antt` shows that kernel/src/mm/mm.c provides it.
use svetos_kernel.Base.{ℕ, ◌+◌, ◌^◌, ◌≤◌, ◌<◌, ◌≡◌, ◌≢◌, ◌⊎◌, Option, some}

abbrev pub Ptr : Type 0
Ptr = ℕ

abbrev pub null : Ptr
null = 0

-- `Owned s p n`: `p` was handed out for at least `n` bytes and is not freed.
module _ {State : Type 0} (Owned : State → Ptr → ℕ → Type 0) where
  pub record Allocated (s : State) (n : ℕ) (p : Ptr) (s' : State) : Type 0 where
    pub owned : Owned s' p n
    pub fresh : (k : ℕ) → ¬ Owned s p k
    pub kept : (r : Ptr) (k : ℕ) → Owned s r k → Owned s' r k

  pub record Released (s : State) (p : Ptr) (s' : State) : Type 0 where
    pub gone : (k : ℕ) → ¬ Owned s' p k
    pub kept : (r : Ptr) (k : ℕ) → r ≢ p → Owned s r k → Owned s' r k

pub record Allocator : Type 1 where
  pub State : Type 0
  -- `none`: the call does not return
  pub kmalloc : ℕ → State → Option (Ptr × State)
  pub kfree : Ptr → State → Option State
  pub Inv : State → Type 0
  pub Owned : State → Ptr → ℕ → Type 0
  -- no address below is handed out
  pub low : Ptr
  pub low_pos : 0 < low
  pub kmalloc_lem :
      (n : ℕ) (s : State)
      → Inv s
      → n + 7 < 2 ^ 32
      → (p : Ptr) × (s' : State) × (kmalloc n s ≡ some (p, s'))
        × Inv s'
        × (((p ≡ null) × (s' ≡ s)) ⊎ ((p ≢ null) × Allocated Owned s n p s'))
  -- whatever the size, the call returns
  pub kmalloc_total :
      (n : ℕ) (s : State) → Inv s → (p : Ptr) × (s' : State) × (kmalloc n s ≡ some (p, s')) × Inv s'
  pub kfree_lem :
      (p : Ptr) (k : ℕ) (s : State)
      → Inv s
      → Owned s p k
      → 0 < k
      → (s' : State) × (kfree p s ≡ some s') × Inv s' × Released Owned s p s'
  -- what is handed out lies apart, within the address space
  pub Owned-apart :
      (p r : Ptr) (j k : ℕ) (s : State)
      → Owned s p j
      → Owned s r k
      → p ≢ r
      → (p + j ≤ r) ⊎ (r + k ≤ p)
  pub Owned-high : (p : Ptr) (k : ℕ) (s : State) → Owned s p k → p + k < 2 ^ 32
  pub Owned-low : (p : Ptr) (k : ℕ) (s : State) → Owned s p k → low ≤ p
  pub Owned-le : (p : Ptr) (j k : ℕ) (s : State) → j ≤ k → Owned s p k → Owned s p j
