-- ===== src/Storage/Registered.antt =====
-- A read of the file system once the driver has registered its interface.
use svetos_kernel.Base.{
  ℕ, ◌+◌, ◌^◌, ◌≤◌, ◌<◌, ◌≡◌, ◌≢◌, ◌⊎◌, inl, inr, false, Option, some, List, ◌==◌, get_or, length,
  ==-zero, arith,
}
use svetos_kernel.Allocator.{Ptr, null, Allocator}
use svetos_kernel.Registry.{CString, entry_size, Registry, interface_get}
use svetos_kernel.Registry.Lookup.{interface_register_lem}
use svetos_kernel.Ports.{Ports}
use svetos_kernel.Ata.Disk.{AtaDisk}
use svetos_kernel.InitrdFs.{Storage}
use svetos_kernel.Storage.{ata_storage, block_storage, ata_register_interfaces, read_registered}
use svetos_kernel.Storage.Stacked.{disk_byte, initrd_read-disk}

module _ (P : Ports) (print : List ℕ → P.State → P.State) (D : AtaDisk P)
    (quiet : (msg : List ℕ) (k : ℕ) (u : P.State) → D.Idle k u → D.Idle k (print msg u))
    (quick : D.delay < 100000) (A : Allocator) (C : CString) where
  -- a read that brings the bytes of the disk from behind the boot sector
  abbrev pub ReadsDisk : (size offset : ℕ) → Option (List ℕ) × P.State → Type 0
  ReadsDisk size offset o =
      (bytes : List ℕ) × (t : P.State) × (k : ℕ) × (o ≡ (some bytes, t))
      × (length bytes ≤ size)
      × (0 < size → 0 < length bytes)
      × ((i : ℕ)
          → i < length bytes
          → get_or bytes i 0 ≡ disk_byte P print D quiet quick (512 + offset + i))
      × (k ≤ D.delay)
      × D.Idle k t

  found-ReadsDisk :
      (tables : Ptr → Storage P.State) (at : Ptr) (r : Registry A C) (size offset n : ℕ)
      (s : P.State)
      → at ≢ null
      → tables at ≡ ata_storage P print
      → interface_get A C (some block_storage) r ≡ at
      → D.Idle n s
      → n < 100000
      → offset < 2 ^ 32
      → ReadsDisk size offset (read_registered P A C tables r size offset s)
  unfolding read_registered
  found-ReadsDisk tables at r size offset n s ne table found idle soon small =
      let given : (at == null) ≡ false = ==-zero at (omega arith) in
      rw (found, given, table)
        (initrd_read-disk P print D quiet quick size offset n s idle soon small)

  -- The driver registers its interface on a well-formed heap, with its table at an address other
  -- than null, and the registration returns. Unless the heap refuses the entry's block, which leaves
  -- the registry as it was, a read of the file system then finds the driver. On a disk that has no
  -- read in progress and keeps its host waiting for fewer than 100000 reads of the status, it
  -- succeeds, and copies at most `size` bytes, at least one if any is wanted, which are those of the
  -- disk from `offset` behind the boot sector on; and no read is in progress afterwards. (What is
  -- printed leaves an idle drive alone.)
  pub read_registered-disk :
      (tables : Ptr → Storage P.State) (at : Ptr) (r : Registry A C) (size offset n : ℕ)
      (s : P.State)
      → A.Inv r.heap
      → at ≢ null
      → tables at ≡ ata_storage P print
      → D.Idle n s
      → n < 100000
      → offset < 2 ^ 32
      → (r' : Registry A C) × (ata_register_interfaces A C at r ≡ some r')
        × A.Inv r'.heap
        × (ReadsDisk size offset (read_registered P A C tables r' size offset s)
            ⊎ ((r' ≡ r) × (A.kmalloc entry_size r.heap ≡ some (null, r.heap))))
  unfolding ata_register_interfaces
  read_registered-disk tables at r size offset n s inv ne table idle soon small =
      let (r', ran, inv', out) =
        interface_register_lem A C block_storage at r inv (omega arith) ne in
      (
        r',
        ran,
        inv',
        elim out [
          | inl (found, _, _) ↦
              inl (found-ReadsDisk tables at r' size offset n s ne table found idle soon small)
          | inr same ↦ inr same
        ],
      )
