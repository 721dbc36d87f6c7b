-- ===== src/Storage/Stacked.antt =====
-- A read of the file system brings the bytes that are on the disk.
use svetos_kernel.Base.{
  ℕ, ◌+◌, ◌*◌, ◌/◌, ◌%◌, ◌^◌, ◌≤◌, ◌<◌, ◌≡◌, refl, true, some, List, [], ◌∷◌, ◌++◌, get_or, length,
  ap, ap₂, ◌∙◌, sym, arith,
}
use svetos_kernel.Ports.{Ports}
use svetos_kernel.Ata.{ata_read_sectors}
use svetos_kernel.Ata.Disk.{AtaDisk, sectors}
use svetos_kernel.Ata.Read.{ata_read_sectors_lem}
use svetos_kernel.InitrdFs.{initrd_read}
use svetos_kernel.InitrdFs.Read.{initrd_read-sector}
use svetos_kernel.Storage.{bytes_of, as_bytes, ata_storage}

length-bytes_of : (ws : List ℕ) → length (bytes_of ws) ≡ 2 * length ws
length-bytes_of [] = omega arith
length-bytes_of (w ∷ ws) = omega (arith, length-bytes_of ws)

append_nil : (xs : List ℕ) → xs ++ [] ≡ xs
append_nil [] = refl
append_nil (x ∷ xs) = ap (λ l. x ∷ l) (append_nil xs)

one_sector : (sector : ℕ → List ℕ) (lba : ℕ) → sectors sector lba 1 ≡ sector lba
unfolding sectors
one_sector sector lba = append_nil (sector lba)

module _ (P : Ports) (print : List ℕ → P.State → P.State) (D : AtaDisk P)
    (quiet : (msg : List ℕ) (k : ℕ) (u : P.State) → D.Idle k u → D.Idle k (print msg u))
    (quick : D.delay < 100000) where
  -- the byte at an address of the disk, whose sectors have 512 bytes
  abbrev pub disk_byte : ℕ → ℕ
  disk_byte a = get_or (bytes_of (D.sector (a / 512))) (a % 512) 0

  -- A read of the file system through the driver succeeds, and copies no more than `size` bytes, at
  -- least one if any is wanted: those of the disk from `offset` behind the boot sector on.
  pub initrd_read-disk :
      (size offset n : ℕ) (s : P.State)
      → D.Idle n s
      → n < 100000
      → offset < 2 ^ 32
      → (bytes : List ℕ) × (t : P.State) × (k : ℕ) × (initrd_read P.State
            (some (ata_storage P print))
            size
            offset
            s
          ≡ (some bytes, t))
        × (length bytes ≤ size)
        × (0 < size → 0 < length bytes)
        × ((i : ℕ) → i < length bytes → get_or bytes i 0 ≡ disk_byte (512 + offset + i))
        × (k ≤ D.delay)
        × D.Idle k t
  initrd_read-disk size offset n s idle soon small =
      let lba = 1 + offset / 512 in
      let (t, k, ran, le, idle') =
        ata_read_sectors_lem P print D lba 1 n s quiet quick idle soon (omega arith) (omega arith)
          (omega arith) in
      let one : sectors D.sector lba 1 ≡ D.sector lba = one_sector D.sector lba in
      let sector = bytes_of (D.sector lba) in
      let long : length sector ≡ 512 =
        omega (arith, length-bytes_of (D.sector lba), D.sector-length lba) in
      let (bytes, e, short, some_byte, at) =
        initrd_read-sector P.State disk_byte (λ l c u. as_bytes (ata_read_sectors P print l c u))
          size offset s sector t (ap as_bytes ran ∙ ap (λ ws. (true, bytes_of ws, t)) one) long
          λ i lt.
            let there : (512 * lba + i) / 512 ≡ lba = omega arith in
            let within : (512 * lba + i) % 512 ≡ i = omega arith in
            ap₂ (λ k j. get_or (bytes_of (D.sector k)) j 0) (sym there) (sym within) in
      (bytes, t, k, e, short, some_byte, at, le, idle')
