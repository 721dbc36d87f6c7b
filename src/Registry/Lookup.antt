-- ===== src/Registry/Lookup.antt =====
-- What `interface_get` of kernel/src/interfaces/registry.c finds.
use svetos_kernel.Base.{
  ◌≤◌, ◌≡◌, ◌≢◌, ◌⊎◌, inl, inr, refl, true, false, some, ◌∷◌, ◌==◌, length, Bool-cases, ==-zero,
  sym, ◌∙◌, ap₂, arith,
}
use svetos_kernel.Allocator.{Ptr, null, Allocator}
use svetos_kernel.Registry.{
  Str, CString, entry_size, search_entries, Registry, add_entry, interface_register, interface_get,
  interface_exists,
}

module _ (A : Allocator) (C : CString) where
  -- Registering an interface under a name of at most 31 bytes returns. Either the name then yields
  -- the interface, whatever was registered under it before, and every other name yields what it
  -- did; or memory is out and nothing has changed.
  pub interface_register_lem :
      (name : Str) (interface : Ptr) (r : Registry A C)
      → A.Inv r.heap
      → length name ≤ 31
      → interface ≢ null
      → (r' : Registry A C) × (interface_register A C (some name) interface r ≡ some r')
        × A.Inv r'.heap
        × (((interface_get A C (some name) r' ≡ interface)
              × (interface_exists A C (some name) r' ≡ true)
              × ((other : Str)
                  → other ≢ name
                  → interface_get A C (some other) r' ≡ interface_get A C (some other) r))
            ⊎ ((r' ≡ r) × (A.kmalloc entry_size r.heap ≡ some (null, r.heap))))
  unfolding interface_register add_entry interface_get interface_exists search_entries
  interface_register_lem name interface r inv short ne =
      let (p, heap, ran, inv', out) = A.kmalloc_lem entry_size r.heap inv (omega arith) in
      let given : (interface == null) ≡ false = ==-zero interface (omega arith) in
      let self : C.strcmp name name ≡ true = (C.strcmp_iff name name).1 refl in
      let copied = C.strncpy_lem name 31 short in
      elim out [
        | inl (z, same) ↦
            (r, rw (given, ran, z, same), inv, inr (refl, ran ∙ ap₂ (λ q h. some (q, h)) z same))
        | inr (ne', a) ↦
            let got : (p == null) ≡ false = ==-zero p (omega arith) in
            (
              record {
                interfaces = record { name = name; interface = interface } ∷ r.interfaces;
                heap = heap;
              },
              rw (given, ran, got, copied),
              inv',
              inl (
                rw self,
                rw (self, given),
                λ other diff. elim (Bool-cases (C.strcmp name other)) [
                  | inl hit ↦ absurd (diff (sym ((C.strcmp_iff name other).0 hit)))
                  | inr miss ↦ rw miss
                ],
              ),
            )
      ]
