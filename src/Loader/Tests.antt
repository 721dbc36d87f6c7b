-- ===== src/Loader/Tests.antt =====
-- A segment of three bytes of file and eight of memory, and a file of one segment.
use svetos_kernel.Base.{ℕ, ◌+◌, ◌-◌, ◌%◌, ◌≡◌, refl, some, ◌==◌, if◌then◌else◌, arith}
use svetos_kernel.Allocator.{Allocator}
use svetos_kernel.Mm.Example.{fresh, one_block, fresh-IsHeap, used, kmalloc_runs}
use svetos_kernel.Mm.Allocator.{mm_allocator}
use svetos_kernel.Strings.{Bytes}
use svetos_kernel.Loader.{
  ProgramHeader, program_header, elf_header, elf_magic, Image, fill_segment, load_segments,
  load_elf_module,
}
use svetos_kernel.Loader.Loads.{Returns, load_elf_module-Returns}
use svetos_kernel.Loader.Placed.{Keeps, AllPlaced}
use svetos_kernel.Loader.Whole.{load_elf_module-places}

abbrev memory : Bytes
memory a = a % 256

abbrev segment : ProgramHeader
segment = record { type = 1; offset = 84; filesz = 3; memsz = 8 }

abbrev A : Allocator
A = mm_allocator 4096 (omega arith)

-- an executable file at 256 with one program header, at 308; its bytes by their offset
abbrev file_byte : ℕ → ℕ
file_byte i =
    if i == 0
    then 0x7F
    else if i == 1
    then 0x45
    else if i == 2
    then 0x4C
    else if i == 3
    then 0x46
    else if i == 16
    then 2
    else if i == 18
    then 3
    else if i == 24
    then 77
    else if i == 28
    then 52
    else if i == 44
    then 1
    else if i == 52
    then 1
    else if i == 56
    then 84
    else if i == 68
    then 3
    else if i == 72
    then 100
    else if i == 84
    then 9
    else 0

abbrev booted : Image A
booted = record { bytes = λ a. file_byte (a - 256); heap = fresh }

abbrev loaded : Image A
loaded = record {
  bytes = fill_segment 4112 256 (program_header booted.bytes 308) booted.bytes;
  heap = used;
}

load_runs : load_elf_module A 256 booted ≡ some (77, loaded)
unfolding load_elf_module load_segments
load_runs = rw kmalloc_runs refl

load_elf_module-Returns_example : Returns A (load_elf_module A 256 booted)
load_elf_module-Returns_example =
    load_elf_module-Returns A 256 booted (one_block, fresh-IsHeap, refl) (omega arith) (omega arith)
      (λ _. record { shorter = omega arith; small = omega arith; inside = omega arith }, tt)

load_elf_module-places_example :
    let h = elf_header booted.bytes 256 in
    (h.magic ≡ elf_magic)
    × (h.type ≡ 2)
    × (h.machine ≡ 3)
    × (77 ≡ h.entry)
    × AllPlaced A 256 booted.bytes h.phnum (256 + h.phoff) loaded
    × Keeps A booted loaded
load_elf_module-places_example =
    load_elf_module-places A 256 booted 77 loaded (one_block, fresh-IsHeap, refl) (omega arith)
      (omega arith)
      (λ _. record { shorter = omega arith; small = omega arith; inside = omega arith }, tt)
      load_runs λ e. omega arith
