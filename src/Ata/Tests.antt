-- ===== src/Ata/Tests.antt =====
-- A read from a drive that follows the protocol.
use svetos_kernel.Base.{ℕ, ◌≡◌, ◌≤◌, refl, true, arith}
use svetos_kernel.Ata.{ata_read_sectors}
use svetos_kernel.Ata.Disk.{sectors}
use svetos_kernel.Ata.Drive.{Drive, content, bus, print, disk, still}
use svetos_kernel.Ata.Read.{ata_read_sectors_lem}

ata_read_sectors_lem_example :
    (t : Drive) × (k : ℕ) × (ata_read_sectors bus print 70000 2 still
      ≡ (true, sectors content 70000 2, t))
    × (k ≤ 2)
    × disk.Idle k t
ata_read_sectors_lem_example =
    ata_read_sectors_lem bus print disk 70000 2 1 still (λ msg k u e. e) (omega arith) refl
      (omega arith) (omega arith) (omega arith) (omega arith)
