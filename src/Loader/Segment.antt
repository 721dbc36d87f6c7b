-- ===== src/Loader/Segment.antt =====
-- What kernel/src/modules/loader.c leaves in a segment's memory.
use svetos_kernel.Base.{
  ℕ, ◌+◌, ◌-◌, ◌^◌, ◌≤◌, ◌<◌, ◌≡◌, ◌⊎◌, inl, inr, ltb, add32, Bool-cases, ap, ◌∙◌, arith,
}
use svetos_kernel.Allocator.{Ptr}
use svetos_kernel.Strings.{Bytes, memcpy, memset}
use svetos_kernel.Strings.Laws.{memcpy-copies, memset-fills}
use svetos_kernel.Loader.{ProgramHeader, fill_segment}

-- Where the file part of a segment is not larger than its memory, and its block lies apart from the
-- bytes of the file, the block gets these bytes and zeros behind them, and nothing outside the
-- block changes.
pub fill_segment_lem :
    (seg module_data : Ptr) (ph : ProgramHeader) (mem : Bytes)
    → ph.filesz ≤ ph.memsz
    → seg + ph.memsz < 2 ^ 32
    → module_data + ph.offset < 2 ^ 32
    → (seg + ph.memsz ≤ module_data + ph.offset) ⊎ (module_data + ph.offset + ph.filesz ≤ seg)
    → let mem' = fill_segment seg module_data ph mem in
      ((i : ℕ) → i < ph.filesz → mem' (seg + i) ≡ mem (module_data + ph.offset + i))
      × ((i : ℕ) → ph.filesz ≤ i → i < ph.memsz → mem' (seg + i) ≡ 0)
      × ((a : ℕ) → (a < seg) ⊎ (seg + ph.memsz ≤ a) → mem' a ≡ mem a)
unfolding fill_segment
fill_segment_lem seg module_data ph mem fits high high' apart =
    let src = module_data + ph.offset in
    let from : add32 module_data ph.offset ≡ src = omega arith in
    let to : add32 seg ph.filesz ≡ seg + ph.filesz = omega arith in
    let mem1 = memcpy seg src ph.filesz mem in
    let (moved, kept) = memcpy-copies ph.filesz seg src mem (ground arith) in
    let (zeros, kept') = memset-fills (ph.memsz - ph.filesz) (seg + ph.filesz) 0 mem1 in
    elim (Bool-cases (ltb ph.filesz ph.memsz)) [
      | inl longer ↦
          rw (from, to, longer)
            (
              λ i lt. kept' (seg + i) (inl (omega arith)) ∙ moved i lt,
              λ i le lt.
                  let here : seg + i ≡ seg + ph.filesz + (i - ph.filesz) = omega arith in
                  ap (memset (seg + ph.filesz) 0 (ph.memsz - ph.filesz) mem1) here
                  ∙ zeros (i - ph.filesz) (omega arith),
              λ a out. kept' a (ground arith) ∙ kept a (ground arith),
            )
      | inr same ↦
          let equal : ph.memsz ≤ ph.filesz = ground arith in
          rw (from, same)
            (λ i lt. moved i lt, λ i le lt. absurd (omega arith), λ a out. kept a (ground arith))
    ]
