-- ===== src/Loader.antt =====
-- The module loader, kernel/src/modules/loader.c and include/kernel/elf.h, on bytes by their
-- address and on the allocator's interface. `none`: a call of the allocator does not return, or a
-- segment is copied past the end of its block.
pub mod Segment
pub mod Loads
pub mod Placed
pub mod Whole
mod Tests
use svetos_kernel.Base.{
  ℕ, zero, suc, ◌+◌, ◌-◌, ◌*◌, ◌/◌, ◌^◌, Bool, ◌||◌, Option, none, some, ltb, ◌==◌, not,
  if◌then◌else◌, add32,
}
use svetos_kernel.Allocator.{Ptr, null, Allocator}
use svetos_kernel.Strings.{Bytes, memcpy, memset}

-- `uint16_t` and `uint32_t` in memory, the low byte first
abbrev pub read16 : Bytes → Ptr → ℕ
read16 mem p = mem p + mem (p + 1) * 2 ^ 8

abbrev pub read32 : Bytes → Ptr → ℕ
read32 mem p = read16 mem p + read16 mem (p + 2) * 2 ^ 16

-- the fields of `elf_header_t` that the loader reads
pub record ElfHeader : Type 0 where
  pub magic : ℕ
  pub type : ℕ
  pub machine : ℕ
  pub entry : ℕ
  pub phoff : ℕ
  pub phnum : ℕ

abbrev pub elf_header : Bytes → Ptr → ElfHeader
elf_header mem p = record {
  magic = read32 mem p;
  type = read16 mem (p + 16);
  machine = read16 mem (p + 18);
  entry = read32 mem (p + 24);
  phoff = read32 mem (p + 28);
  phnum = read16 mem (p + 44);
}

-- those of `elf_program_header_t`, which takes 32 bytes
pub record ProgramHeader : Type 0 where
  pub type : ℕ
  pub offset : ℕ
  pub filesz : ℕ
  pub memsz : ℕ

abbrev pub program_header : Bytes → Ptr → ProgramHeader
program_header mem p = record {
  type = read32 mem p;
  offset = read32 mem (p + 4);
  filesz = read32 mem (p + 16);
  memsz = read32 mem (p + 20);
}

abbrev pub elf_magic : ℕ
elf_magic = 0x464C457F

abbrev pub pt_load : ℕ
pt_load = 1

-- copies a segment to its block, and zeros behind it
unfoldable pub fill_segment : (seg_addr module_data : Ptr) → ProgramHeader → Bytes → Bytes
fill_segment seg_addr module_data ph mem =
    let mem' = memcpy seg_addr (add32 module_data ph.offset) ph.filesz mem in
    if ltb ph.filesz ph.memsz
    then memset (add32 seg_addr ph.filesz) 0 (ph.memsz - ph.filesz) mem'
    else mem'

module _ (A : Allocator) where
  pub record Image : Type 0 where
    pub bytes : Bytes
    pub heap : A.State

  abbrev pub Loaded : Type 0
  Loaded = Option (Ptr × Image)

  -- The block of the segment, rounded up by `kmalloc` in 32 bits, is shorter than what is copied or
  -- cleared there.
  abbrev pub past_block : ProgramHeader → Bool
  past_block ph =
      ltb (add32 ph.memsz 7 / 8 * 8) ph.filesz || ltb (add32 ph.memsz 7 / 8 * 8) ph.memsz

  -- what follows `kmalloc`: the failure, or the rest of the loop on the new state
  abbrev pub after_kmalloc :
      Option (Ptr × A.State) → Ptr → ProgramHeader → Image → (Image → Loaded) → Loaded
  after_kmalloc none module_data ph s k = none
  after_kmalloc (some (seg_addr, heap)) module_data ph s k =
      if seg_addr == null
      then some (null, record s { heap = heap })
      else if past_block ph
      then none
      else k (record { bytes = fill_segment seg_addr module_data ph s.bytes; heap = heap })

  -- the loop over the program headers, of which `left` are to come from `p`
  unfoldable pub load_segments : (module_data entry : Ptr) → (left : ℕ) → (p : Ptr) → Image → Loaded
  load_segments module_data entry zero p s = some (entry, s)
  load_segments module_data entry (suc left) p s =
      let ph = program_header s.bytes p in
      let next = load_segments module_data entry left (p + 32) in
      if ph.type == pt_load
      then after_kmalloc (A.kmalloc ph.memsz s.heap) module_data ph s next
      else next s

  unfoldable pub load_elf_module : Ptr → Image → Loaded
  load_elf_module module_data s =
      let header = elf_header s.bytes module_data in
      if not (header.magic == elf_magic)
      then some (null, s)
      else if not (header.type == 2)
      then some (null, s)
      else if not (header.machine == 3)
      then some (null, s)
      else load_segments module_data header.entry header.phnum (add32 module_data header.phoff) s

  -- what `load_module` returns, where `run` calls the module's entry point; -1 is `none`
  abbrev pub run_entry : (Ptr → Image → ℕ × Image) → Loaded → Option (Option ℕ × Image)
  run_entry run none = none
  run_entry run (some (entry_point, s)) =
      if entry_point == null
      then some (none, s)
      else (let (result, s') = run entry_point s in some (some result, s'))

  unfoldable pub load_module :
      (Ptr → Image → ℕ × Image) → (module_data : Ptr) → Image → Option (Option ℕ × Image)
  load_module run module_data s = run_entry run (load_elf_module module_data s)
