-- ===== src/Storage/Tests.antt =====
-- A read of 20 bytes across the drive whose sectors hold their own numbers.
use svetos_kernel.Base.{ℕ, List, refl, ◌⊎◌, [], ◌≡◌, some, arith}
use svetos_kernel.Ata.Drive.{Drive, bus, print, disk, still}
use svetos_kernel.Allocator.{null, Allocator}
use svetos_kernel.Mm.Example.{fresh, one_block, fresh-IsHeap}
use svetos_kernel.Mm.Allocator.{mm_allocator}
use svetos_kernel.Registry.{entry_size, Registry}
use svetos_kernel.Registry.Bytewise.{bytewise}
use svetos_kernel.Storage.{ata_storage, ata_register_interfaces, read_registered}
use svetos_kernel.Storage.Registered.{ReadsDisk, read_registered-disk}

abbrev A : Allocator
A = mm_allocator 4096 (omega arith)

abbrev empty : Registry A bytewise
empty = record { interfaces = []; heap = fresh }

quiet : (msg : List ℕ) (k : ℕ) (u : Drive) → disk.Idle k u → disk.Idle k (print msg u)
quiet msg k u e = e

read_registered-disk_example :
    (r' : Registry A bytewise) × (ata_register_interfaces A bytewise 2048 empty ≡ some r')
    × A.Inv r'.heap
    × (ReadsDisk bus print disk quiet
          (omega arith)
          A
          bytewise
          20
          300000
          (read_registered bus A bytewise (λ p. ata_storage bus print) r' 20 300000 still)
        ⊎ ((r' ≡ empty) × (A.kmalloc entry_size fresh ≡ some (null, fresh))))
read_registered-disk_example =
    read_registered-disk bus print disk quiet (omega arith) A bytewise (λ p. ata_storage bus print)
      2048 empty 20 300000 1 still (one_block, fresh-IsHeap, refl) (λ e. omega arith) refl refl
      (omega arith) (omega arith)
