-- ===== src/InitrdFs.antt =====
-- The read-only file system modules/sys/fs/initrd_fs/initrd_fs_improved.c over a storage
-- interface of include/kernel/interfaces/generic.h, which `interface_get` yields, or null. A result
-- of -1 is `none`; a buffer is the list of its bytes.
pub mod Read
pub mod Module
pub mod Same
mod Tests
use svetos_kernel.Base.{
  ℕ, ◌+◌, ◌-◌, ◌*◌, ◌/◌, ◌%◌, Bool, true, false, Option, none, some, List, [], ◌∷◌, ◌++◌, ltb, leb,
  if◌then◌else◌, take, drop, length,
}
use svetos_kernel.Base.Text.{codes}

module _ (State : Type 0) where
  -- `read` of `struct storage_interface`: whether it returned 0, with the buffer's bytes
  abbrev pub SectorRead : Type 0
  SectorRead = (lba count : ℕ) → State → Bool × List ℕ × State

  pub record Storage : Type 0 where
    pub read : Option SectorRead

  pub record InitrdFs : Type 0 where
    pub storage_device : ℕ
    pub machine : State

  -- the test read of `initrd_mount`, whose result is only printed
  abbrev pub test_read : Option SectorRead → State → State
  test_read none s = s
  test_read (some read) s = let (ok, bytes, s') = read 0 1 s in s'

  unfoldable pub initrd_mount : Option Storage → (device : ℕ) → InitrdFs → Option ℕ × InitrdFs
  initrd_mount none device fs = (none, fs)
  initrd_mount (some storage) device fs =
      (some 0, record { storage_device = device; machine = test_read storage.read fs.machine })

  abbrev pub copy_size : (size offset : ℕ) → ℕ
  copy_size size offset = if ltb size (512 - offset % 512) then size else 512 - offset % 512

  -- what `initrd_read` makes of the sector
  abbrev pub copy_out : (size offset : ℕ) → Bool × List ℕ × State → Option (List ℕ) × State
  copy_out size offset (ok, sector, s) =
      if ok
      then (some (take (copy_size size offset) (drop (offset % 512) sector)), s)
      else (none, s)

  abbrev pub read_from : (size offset : ℕ) → Option SectorRead → State → Option (List ℕ) × State
  read_from size offset none s = (none, s)
  read_from size offset (some read) s = copy_out size offset (read (1 + offset / 512) 1 s)

  -- `initrd_read` gives the bytes that it copies to `buffer`, and their number.
  unfoldable pub initrd_read : Option Storage → (size offset : ℕ) → State → Option (List ℕ) × State
  initrd_read none size offset s = (none, s)
  initrd_read (some storage) size offset s = read_from size offset storage.read s

-- `initrd_write` refuses.
pub initrd_write : (buffer : List ℕ) (size offset : ℕ) → Option ℕ
initrd_write buffer size offset = none

abbrev pub file_list : List ℕ
file_list = codes "kernel.bin\ninitrd.img\nreadme.txt\ntest.txt\n"

-- `initrd_list` with the file list as its bytes: the number of bytes and what is copied
unfoldable pub initrd_list : (file_list : List ℕ) (buffer_size : ℕ) → ℕ × List ℕ
initrd_list file_list buffer_size =
    if leb (length file_list) buffer_size then (length file_list, file_list ++ 0 ∷ []) else (0, [])
