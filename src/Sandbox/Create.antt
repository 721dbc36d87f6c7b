-- ===== src/Sandbox/Create.antt =====
-- How a sandbox comes to be, kernel/src/sandbox/sandbox.c.
use svetos_kernel.Base.{
  ℕ, ◌+◌, ◌<◌, ◌≡◌, ◌≢◌, ◌⊎◌, inl, inr, refl, Bool, true, false, none, some, ◌==◌, leb, get_or, set,
  length, ap, ap₂, sym, ◌∙◌, subst, Bool-cases, Option-cases, length-set, get_or-set_self,
  get_or-set_ne, leb-false, leb→le, ==-zero, arith,
}
use svetos_kernel.Allocator.{Ptr, null, Allocator, Allocated}
use svetos_kernel.Sandbox.{
  Slot, blank, sandbox_memory_size, first_free, Sandboxes, settle, claim, sandbox_create,
}
use svetos_kernel.Sandbox.Inv.{
  bit, used_count, used_count-set, used_count-le, set-set, first_free-some, first_free-none,
  IsSandboxes, set-IsSandboxes,
}

module _ (A : Allocator) (s : Sandboxes A) (v : IsSandboxes A s) where
  pub count_at :
      (i : ℕ) (y : Slot)
      → i < 32
      → used_count (set s.slots i y) + bit (get_or s.slots i blank).used ≡ s.count + bit y.used
  count_at i y lt = omega (arith, used_count-set s.slots i y (omega (arith, v.long)), v.counted)

  pub record IsCreated (i : ℕ) (s' : Sandboxes A) : Type 0 where
    pub inside : i < 32
    pub was_free : (get_or s.slots i blank).used ≡ false
    pub used : (get_or s'.slots i blank).used ≡ true
    pub powerless : (get_or s'.slots i blank).capabilities ≡ 0
    pub counted : s'.count ≡ s.count + 1
    pub others : (j : ℕ) → i ≢ j → get_or s'.slots j blank ≡ get_or s.slots j blank

  pub record IsRefused (s' : Sandboxes A) : Type 0 where
    pub counted : s'.count ≡ s.count
    pub reason : (s.count ≡ 32) ⊎ (A.kmalloc sandbox_memory_size s.heap ≡ some (null, s.heap))
    pub same : (j : ℕ) → (get_or s'.slots j blank).used ≡ (get_or s.slots j blank).used
    pub kept :
        (j : ℕ)
        → (get_or s.slots j blank).used ≡ true
        → get_or s'.slots j blank ≡ get_or s.slots j blank

  unfoldable pub Created : Type 0
  Created =
      (s' : Sandboxes A) × IsSandboxes A s'
      × (((i : ℕ) × (sandbox_create A s ≡ some (some i, s')) × IsCreated i s')
          ⊎ ((sandbox_create A s ≡ some (none, s')) × IsRefused s'))

  module _ (i : ℕ) (found : first_free s.slots ≡ some i) where
    inside : i < length s.slots
    inside = (first_free-some s.slots i found).0

    idle : (get_or s.slots i blank).used ≡ false
    idle = (first_free-some s.slots i found).1

    room : s.count < 32
    room =
        let full = record blank { used = true } in
        omega (
          arith,
          v.long,
          used_count-le (set s.slots i full),
          length-set s.slots i full,
          count_at i full (omega (arith, inside, v.long)),
          ap bit idle,
        )

    -- the slot as it is written when the allocator has answered `p`
    abbrev made : Bool → Ptr → Slot
    made used p = record { used = used; id = i; capabilities = 0; memory_ptr = p }

    settle_served :
        (p : Ptr) (heap : A.State)
        → (p == null) ≡ false
        → settle A i (some (p, heap)) (claim A i s)
          ≡ some (
            some i,
            record { slots = set s.slots i (made true p); count = s.count + 1; heap = heap },
          )
    unfolding settle claim
    settle_served p heap e = rw (
      e,
      get_or-set_self s.slots i (made true (get_or s.slots i blank).memory_ptr) blank inside,
      set-set s.slots i (made true (get_or s.slots i blank).memory_ptr) (made true p),
    )

    settle_refused :
        (p : Ptr) (heap : A.State)
        → (p == null) ≡ true
        → settle A i (some (p, heap)) (claim A i s)
          ≡ some
              (none, record { slots = set s.slots i (made false p); count = s.count; heap = heap })
    unfolding settle claim
    settle_refused p heap e =
        rw
          (
            e,
            get_or-set_self s.slots i (made true (get_or s.slots i blank).memory_ptr) blank inside,
            set-set s.slots i (made true (get_or s.slots i blank).memory_ptr) (made false p),
          )
          (ap
            (λ c.
              some (none, record { slots = set s.slots i (made false p); count = c; heap = heap }))
            (omega arith))

    create_at : sandbox_create A s ≡ settle A i (A.kmalloc sandbox_memory_size s.heap) (claim A i s)
    unfolding sandbox_create
    create_at = rw (leb-false 32 s.count room, found)

    others : (y : Slot) (j : ℕ) → i ≢ j → get_or (set s.slots i y) j blank ≡ get_or s.slots j blank
    others y j ne = get_or-set_ne s.slots i j y blank ne

    at_i : (y : Slot) → get_or (set s.slots i y) i blank ≡ y
    at_i y = get_or-set_self s.slots i y blank inside

    below : i < 32
    below = omega (arith, inside, v.long)

    created :
        (p : Ptr) (heap : A.State)
        → A.Inv heap
        → p ≢ null
        → Allocated A.Owned s.heap sandbox_memory_size p heap
        → A.kmalloc sandbox_memory_size s.heap ≡ some (p, heap)
        → Created
    unfolding Created
    created p heap inv ne a ran = (
      record { slots = set s.slots i (made true p); count = s.count + 1; heap = heap },
      set-IsSandboxes A s i (made true p) heap v
          (record {
            inside = below;
            inv = inv;
            numbered = λ u. refl;
            owned = λ u. a.owned;
            kept = λ j ne' u.
                a.kept (get_or s.slots j blank).memory_ptr sandbox_memory_size (v.owned j u);
            other = λ j ne' u w same.
                a.fresh sandbox_memory_size
                  (subst (λ z. A.Owned s.heap z sandbox_memory_size) same (v.owned j w));
          })
          (s.count + 1) (omega (arith, count_at i (made true p) below, ap bit idle)),
      inl (
        i,
        create_at
            ∙ ap (λ o. settle A i o (claim A i s)) ran
            ∙ settle_served p heap (==-zero p (omega arith)),
        record {
          inside = below;
          was_free = idle;
          used = ap (λ (y : Slot). y.used) (at_i (made true p));
          powerless = ap (λ (y : Slot). y.capabilities) (at_i (made true p));
          counted = refl;
          others = others (made true p);
        },
      ),
    )

    refused : A.kmalloc sandbox_memory_size s.heap ≡ some (null, s.heap) → Created
    unfolding Created
    refused ran = (
      record { slots = set s.slots i (made false null); count = s.count; heap = s.heap },
      set-IsSandboxes A s i (made false null) s.heap v
          (record {
            inside = below;
            inv = v.inv;
            numbered = λ u. refl;
            owned = λ u. absurd (ground arith);
            kept = λ j ne' u. v.owned j u;
            other = λ j ne' u w same. absurd (ground arith);
          })
          s.count (omega (arith, count_at i (made false null) below, ap bit idle)),
      inr (
        create_at ∙ ap (λ o. settle A i o (claim A i s)) ran ∙ settle_refused null s.heap refl,
        record {
          counted = refl;
          reason = inr ran;
          same = λ j. elim (Bool-cases (i == j)) [
            | inl hit ↦
                let same : i ≡ j = ground arith in
                subst
                  (λ z.
                    (get_or (set s.slots i (made false null)) z blank).used
                    ≡ (get_or s.slots z blank).used)
                  same (ap (λ (y : Slot). y.used) (at_i (made false null)) ∙ sym idle)
            | inr miss ↦ ap (λ (y : Slot). y.used) (others (made false null) j (ground arith))
          ];
          kept = λ j busy. others (made false null) j (λ e.
              let free : (get_or s.slots j blank).used ≡ false =
                subst (λ z. (get_or s.slots z blank).used ≡ false) e idle in
              absurd (ground arith));
        },
      ),
    )

  unchanged : (sandbox_create A s ≡ some (none, s)) → s.count ≡ 32 → Created
  unfolding Created
  unchanged ran full = (
    s,
    v,
    inr (
      ran,
      record { counted = refl; reason = inl full; same = λ j. refl; kept = λ j busy. refl },
    ),
  )

  run_full : leb 32 s.count ≡ true → sandbox_create A s ≡ some (none, s)
  unfolding sandbox_create
  run_full full = rw full

  -- On a well-formed table, `sandbox_create` returns and keeps it well-formed. Either there is a new
  -- sandbox at an index that was free, with no capabilities, and the other slots are as before; or
  -- it fails, the same slots are in use as before and unchanged, and 32 sandboxes exist or the allocator has
  -- refused.
  pub sandbox_create_lem : Created
  sandbox_create_lem = elim (Bool-cases (leb 32 s.count)) [
    | inl full ↦
        unchanged (run_full full)
          (omega (arith, leb→le 32 s.count full, used_count-le s.slots, v.long, v.counted))
    | inr room ↦ elim (Option-cases (first_free s.slots)) [
      | inl no_slot ↦ absurd (ground (arith, first_free-none s.slots no_slot, v.long, v.counted))
      | inr (i, found) ↦
          let (p, heap, ran, inv, out) =
            A.kmalloc_lem sandbox_memory_size s.heap v.inv (omega arith) in
          elim out [
            | inl (z, same) ↦ refused i found (ran ∙ ap₂ (λ a b. some (a, b)) z same)
            | inr (ne, a) ↦ created i found p heap inv ne a ran
          ]
    ]
  ]
