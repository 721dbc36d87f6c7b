-- ===== src/Storage.antt =====
-- The file system of modules/sys/fs/initrd_fs/initrd_fs_improved.c on the disk driver of
-- modules/drivers/storage/ata/ata_module.c, through the storage interface that the driver fills in.
pub mod Stacked
pub mod Registered
mod Tests
use svetos_kernel.Base.{ℕ, ◌/◌, ◌%◌, Bool, Option, none, some, List, [], ◌∷◌, ◌==◌, if◌then◌else◌}
use svetos_kernel.Ports.{Ports}
use svetos_kernel.Ata.{ata_read_sectors}
use svetos_kernel.Base.Text.{codes}
use svetos_kernel.Allocator.{Ptr, null, Allocator}
use svetos_kernel.Registry.{Str, CString, Registry, interface_register, interface_get}
use svetos_kernel.InitrdFs.{Storage, initrd_read}

-- a buffer of words as its bytes, the low byte first
abbrev pub bytes_of : List ℕ → List ℕ
bytes_of [] = []
bytes_of (w ∷ ws) = (w % 256) ∷ (w / 256) ∷ bytes_of ws

abbrev pub as_bytes : {S : Type 0} → Bool × List ℕ × S → Bool × List ℕ × S
as_bytes (ok, ws, s) = (ok, bytes_of ws, s)

-- the driver's table of functions, of which the file system uses `read`
abbrev pub ata_storage : (P : Ports) → (List ℕ → P.State → P.State) → Storage P.State
ata_storage P print = record {
  read = some (λ lba count s. as_bytes (ata_read_sectors P print lba count s));
}

-- `INTERFACE_BLOCK_STORAGE`
abbrev pub block_storage : Str
block_storage = codes "block_storage"

-- `ata_register_interfaces`, with the address of the driver's table
unfoldable pub ata_register_interfaces :
    (A : Allocator) (C : CString) → (ata_storage_at : Ptr) → Registry A C → Option (Registry A C)
ata_register_interfaces A C ata_storage_at r =
    interface_register A C (some block_storage) ata_storage_at r

-- what a pointer to a table of functions stands for, where `tables` are those in memory
abbrev pub storage_of : {S : Type 0} → (Ptr → Storage S) → Ptr → Option (Storage S)
storage_of tables p = if p == null then none else some (tables p)

-- `initrd_read` with the storage that it looks up
unfoldable pub read_registered :
    (P : Ports) (A : Allocator) (C : CString)
    → (Ptr → Storage P.State)
    → Registry A C
    → (size offset : ℕ) → P.State
    → Option (List ℕ) × P.State
read_registered P A C tables r size offset s =
    initrd_read P.State (storage_of tables (interface_get A C (some block_storage) r)) size offset s
