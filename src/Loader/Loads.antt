-- ===== src/Loader/Loads.antt =====
-- kernel/src/modules/loader.c and the calls that return.
use svetos_kernel.Base.{
  ℕ, zero, suc, ◌+◌, ◌*◌, ◌^◌, ◌%◌, ◌≤◌, ◌<◌, ◌≡◌, inl, inr, refl, true, false, some, Bool-cases,
  ◌==◌, sym, ◌∙◌, subst, arith,
}
use svetos_kernel.Allocator.{Ptr, null, Allocator}
use svetos_kernel.Strings.{Bytes}
use svetos_kernel.Loader.{
  program_header, elf_header, elf_magic, pt_load, fill_segment, Image, Loaded, load_segments,
  load_elf_module,
}
use svetos_kernel.Loader.Placed.{Fits, AllFit, header-same, fill-IsPlaced, Fits-inside}

module _ (A : Allocator) where
  -- `o` is the result of a call that returned with the heap intact
  abbrev pub Returns : Loaded A → Type 0
  Returns o = (p : Ptr) × (s' : Image A) × (o ≡ some (p, s')) × A.Inv s'.heap

  load_segments-Returns :
      (module_data entry : Ptr) (left : ℕ) (p : Ptr) (file : Bytes) (s : Image A)
      → A.Inv s.heap
      → ((a : ℕ) → a < A.low → s.bytes a ≡ file a)
      → p + 32 * left ≤ A.low
      → AllFit A module_data file left p
      → Returns (load_segments A module_data entry left p s)
  unfolding load_segments
  load_segments-Returns module_data entry zero p file s v same le fit = (entry, s, refl, v)
  load_segments-Returns module_data entry (suc left) p file s v same le fit =
      let ph = program_header s.bytes p in
      let read = header-same A file s.bytes p same (omega arith) in
      elim (Bool-cases (ph.type == pt_load)) [
        | inl load ↦
            let is_load : ph.type ≡ pt_load = ground arith in
            let f =
              subst (Fits A module_data) (sym read)
                (fit.0 (subst (λ h. h.type ≡ pt_load) read is_load)) in
            let (seg, heap', ran, v', cases) = A.kmalloc_lem ph.memsz s.heap v f.small in
            elim cases [
              | inl (out, _) ↦
                  let full : (seg == null) ≡ true = ground arith in
                  (null, record s { heap = heap' }, rw (load, ran, full) refl, v')
              | inr (got, block) ↦
                  let there : (seg == null) ≡ false = ground arith in
                  let inside = Fits-inside A module_data ph f in
                  let t : Image A = record {
                    bytes = fill_segment seg module_data ph s.bytes;
                    heap = heap';
                  } in
                  let (kept, _) = fill-IsPlaced A module_data ph file s seg heap' f same block in
                  rw (load, ran, there, inside)
                    (load_segments-Returns module_data entry left (p + 32) file t v'
                      (λ a lt. kept.below a lt ∙ same a lt) (omega arith) fit.1)
            ]
        | inr skip ↦ rw skip (
            load_segments-Returns module_data entry left (p + 32) file s v same (omega arith) fit.1)
      ]

  -- On a well-formed heap `load_elf_module` of a file below it whose loadable headers fit (each
  -- segment's bytes lie below the heap too, none is longer in the file than in memory, and none is
  -- of 2 ^ 32 - 7 bytes or more) returns, with no copy past the end of a block, also when the file
  -- is refused or the memory of a segment is, and the heap stays well-formed.
  pub load_elf_module-Returns :
      (module_data : Ptr) (s : Image A)
      → let h = elf_header s.bytes module_data in
        A.Inv s.heap
        → module_data + h.phoff + 32 * h.phnum ≤ A.low
        → A.low < 2 ^ 32
        → AllFit A module_data s.bytes h.phnum (module_data + h.phoff)
        → Returns (load_elf_module A module_data s)
  unfolding load_elf_module
  load_elf_module-Returns module_data s v le low fit =
      let h = elf_header s.bytes module_data in
      elim (Bool-cases (h.magic == elf_magic)) [
        | inl magic ↦ elim (Bool-cases (h.type == 2)) [
          | inl type ↦ elim (Bool-cases (h.machine == 3)) [
            | inl machine ↦
                let start : (module_data + h.phoff) % 2 ^ 32 ≡ module_data + h.phoff =
                  omega arith in
                rw (magic, type, machine, start)
                  (load_segments-Returns module_data h.entry h.phnum (module_data + h.phoff) s.bytes
                    s v (λ a lt. refl) le fit)
            | inr other ↦ (null, s, rw (magic, type, other) refl, v)
          ]
          | inr other ↦ (null, s, rw (magic, other) refl, v)
        ]
        | inr other ↦ (null, s, rw other refl, v)
      ]
