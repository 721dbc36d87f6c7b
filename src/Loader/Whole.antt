-- ===== src/Loader/Whole.antt =====
-- `load_elf_module` of kernel/src/modules/loader.c as a whole.
use svetos_kernel.Base.{
  ℕ, zero, suc, ◌+◌, ◌*◌, ◌^◌, ◌%◌, ◌≤◌, ◌<◌, ◌≡◌, ◌≢◌, inl, inr, refl, true, false, some,
  Bool-cases, ◌==◌, sym, ◌∙◌, subst, arith,
}
use svetos_kernel.Allocator.{Ptr, null, Allocator}
use svetos_kernel.Strings.{Bytes}
use svetos_kernel.Loader.{
  program_header, elf_header, elf_magic, pt_load, fill_segment, Image, load_segments,
  load_elf_module,
}
use svetos_kernel.Loader.Placed.{
  Keeps, Keeps-refl, Keeps-trans, Fits, IsPlaced, AllFit, AllPlaced, IsPlaced-kept, header-same,
  fill-IsPlaced, Fits-inside,
}

module _ (A : Allocator) where
  load_segments-places :
      (module_data entry : Ptr) (left : ℕ) (p : Ptr) (file : Bytes) (s : Image A) (p' : Ptr)
      (s' : Image A)
      → A.Inv s.heap
      → ((a : ℕ) → a < A.low → s.bytes a ≡ file a)
      → p + 32 * left ≤ A.low
      → AllFit A module_data file left p
      → load_segments A module_data entry left p s ≡ some (p', s')
      → p' ≢ null
      → (p' ≡ entry) × Keeps A s s' × AllPlaced A module_data file left p s'
  unfolding load_segments
  load_segments-places module_data entry zero p file s p' s' v same le fit e ne =
      let here : s ≡ s' = ground arith in
      (ground arith, subst (Keeps A s) here (Keeps-refl A s), tt)
  load_segments-places module_data entry (suc left) p file s p' s' v same le fit e ne =
      let ph = program_header s.bytes p in
      let read = header-same A file s.bytes p same (omega arith) in
      elim (Bool-cases (ph.type == pt_load)) [
        | inl load ↦
            let is_load : ph.type ≡ pt_load = ground arith in
            let f =
              subst (Fits A module_data) (sym read)
                (fit.0 (subst (λ h. h.type ≡ pt_load) read is_load)) in
            let (seg, heap', ran, v', cases) = A.kmalloc_lem ph.memsz s.heap v f.small in
            elim cases [
              | inl (out, _) ↦
                  let full : (seg == null) ≡ true = ground arith in
                  let e' = rw (load, ran, full) at e in absurd (ne (ground arith))
              | inr (got, block) ↦
                  let there : (seg == null) ≡ false = ground arith in
                  let inside = Fits-inside A module_data ph f in
                  let e' = rw (load, ran, there, inside) at e in
                  let t : Image A = record {
                    bytes = fill_segment seg module_data ph s.bytes;
                    heap = heap';
                  } in
                  let (kept, placed) =
                    fill-IsPlaced A module_data ph file s seg heap' f same block in
                  let (end, kept', rest) =
                    load_segments-places module_data entry left (p + 32) file t p' s' v'
                      (λ a lt. kept.below a lt ∙ same a lt) (omega arith) fit.1 e' ne in
                  (
                    end,
                    Keeps-trans A s t s' kept kept',
                    (
                      λ _. (
                        seg,
                        got,
                        subst (λ h. IsPlaced A module_data h file seg s') read
                            (IsPlaced-kept A module_data ph file seg t s' f.shorter kept' placed),
                      ),
                      rest,
                    ),
                  )
            ]
        | inr skip ↦
            let skipped : ph.type ≢ pt_load = ground arith in
            let e' = rw skip at e in
            let (end, kept, rest) =
              load_segments-places module_data entry left (p + 32) file s p' s' v same (omega arith)
                fit.1 e' ne in
            (
              end,
              kept,
              (
                λ is_load. absurd (skipped (subst (λ h. h.type ≡ pt_load) (sym read) is_load)),
                rest,
              ),
            )
      ]

  -- The whole of `load_elf_module`, for a file below the heap whose loadable headers fit. If it
  -- returns a pointer other than null, the file has the magic number and is executable for the
  -- machine, the pointer is its entry, every loadable segment has a block of its own with its bytes
  -- and zeros behind them, and what lies below the heap or was handed out before is as it was.
  pub load_elf_module-places :
      (module_data : Ptr) (s : Image A) (p' : Ptr) (s' : Image A)
      → let h = elf_header s.bytes module_data in
        A.Inv s.heap
        → module_data + h.phoff + 32 * h.phnum ≤ A.low
        → A.low < 2 ^ 32
        → AllFit A module_data s.bytes h.phnum (module_data + h.phoff)
        → load_elf_module A module_data s ≡ some (p', s')
        → p' ≢ null
        → (h.magic ≡ elf_magic)
          × (h.type ≡ 2)
          × (h.machine ≡ 3)
          × (p' ≡ h.entry)
          × AllPlaced A module_data s.bytes h.phnum (module_data + h.phoff) s'
          × Keeps A s s'
  unfolding load_elf_module
  load_elf_module-places module_data s p' s' v le low fit e ne =
      let h = elf_header s.bytes module_data in
      elim (Bool-cases (h.magic == elf_magic)) [
        | inl magic ↦ elim (Bool-cases (h.type == 2)) [
          | inl type ↦ elim (Bool-cases (h.machine == 3)) [
            | inl machine ↦
                let start : (module_data + h.phoff) % 2 ^ 32 ≡ module_data + h.phoff =
                  omega arith in
                let e' = rw (magic, type, machine, start) at e in
                let (end, kept, placed) =
                  load_segments-places module_data h.entry h.phnum (module_data + h.phoff) s.bytes s
                    p' s' v (λ a lt. refl) le fit e' ne in
                (ground arith, ground arith, ground arith, end, placed, kept)
            | inr other ↦ let e' = rw (magic, type, other) at e in absurd (ne (ground arith))
          ]
          | inr other ↦ let e' = rw (magic, other) at e in absurd (ne (ground arith))
        ]
        | inr other ↦ let e' = rw other at e in absurd (ne (ground arith))
      ]
