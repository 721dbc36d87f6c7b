-- ===== src/Ata/Disk.antt =====
-- What modules/drivers/storage/ata/ata_module.c relies on of a disk: the protocol of a read by
-- programmed input, with a block address of 28 bits.
use svetos_kernel.Base.{
  ℕ, zero, suc, ◌+◌, ◌-◌, ◌*◌, ◌/◌, ◌%◌, ◌≤◌, ◌==◌, if◌then◌else◌, ◌^◌, ◌<◌, ◌≡◌, ◌≢◌, List, [],
  ◌∷◌, ◌++◌, length, bit_and,
}
use svetos_kernel.Ports.{Ports}
use svetos_kernel.Ata.{
  ata_data, ata_sector_count, ata_lba_low, ata_lba_mid, ata_lba_high, ata_drive_head, ata_command,
}

-- the words of `count` sectors from `lba`
unfoldable pub sectors : (ℕ → List ℕ) → (lba count : ℕ) → List ℕ
sectors sector lba zero = []
sectors sector lba (suc count) = sector lba ++ sectors sector (lba + 1) count

-- `Idle n`: no read is in progress, and BSY is shown for the next `n` reads of the status.
-- `Preparing n lba count`: after `n` more of them, with neither DRQ nor ERR shown, comes the sector
-- `lba`, and `count` more behind it. `Sending ws lba count`: the words `ws` of the sector are still
-- to be fetched, and then come `count` more sectors, from `lba` on.
pub record AtaDisk (P : Ports) : Type 1 where
  -- the content
  pub sector : ℕ → List ℕ
  pub sector-length : (lba : ℕ) → length (sector lba) ≡ 256
  -- how many reads of the status the drive keeps its host waiting at most
  pub delay : ℕ
  pub Idle : ℕ → P.State → Type 0
  pub Preparing : (n lba count : ℕ) → P.State → Type 0
  pub Sending : List ℕ → (lba count : ℕ) → P.State → Type 0
  pub idle_busy :
      (n : ℕ) (s : P.State)
      → Idle (suc n) s
      → (bit_and (P.inb ata_command s).0 0x80 ≢ 0) × Idle n (P.inb ata_command s).1
  pub idle_ready :
      (s : P.State)
      → Idle 0 s
      → (bit_and (P.inb ata_command s).0 0x80 ≡ 0) × Idle 0 (P.inb ata_command s).1
  -- the status while a sector is being prepared, and when it is there
  pub prepare_busy :
      (n lba count : ℕ) (s : P.State)
      → Preparing (suc n) lba count s
      → (bit_and (P.inb ata_command s).0 0x08 ≡ 0)
        × (bit_and (P.inb ata_command s).0 0x01 ≡ 0)
        × Preparing n lba count (P.inb ata_command s).1
  pub prepare_ready :
      (lba count : ℕ) (s : P.State)
      → Preparing 0 lba count s
      → (bit_and (P.inb ata_command s).0 0x08 ≢ 0)
        × Sending (sector lba) (lba + 1) count (P.inb ata_command s).1
  pub send_word :
      (w : ℕ) (ws : List ℕ) (lba count : ℕ) (s : P.State)
      → Sending (w ∷ ws) lba count s
      → ((P.inw ata_data s).0 ≡ w) × Sending ws lba count (P.inw ata_data s).1
  -- behind a sector's last word comes the next sector, or the drive is idle again
  pub sent_sector :
      (lba count : ℕ) (s : P.State)
      → Sending [] lba (suc count) s
      → (n : ℕ) × (n ≤ delay) × Preparing n lba count s
  pub sent_all : (lba : ℕ) (s : P.State) → Sending [] lba 0 s → (n : ℕ) × (n ≤ delay) × Idle n s
  -- The command READ SECTORS (0x20) on drive 0, with LBA set in the register for drive and head
  -- (its upper half is 0xE), reads as many sectors as the count register says, where 0 says 256.
  pub read_command :
      (head count low mid high : ℕ) (s : P.State)
      → Idle 0 s
      → head / 16 ≡ 0xE
      → count < 256
      → low < 256
      → mid < 256
      → high < 256
      → (n : ℕ) × (n ≤ delay)
        × Preparing n
            (low + mid * 2 ^ 8 + high * 2 ^ 16 + head % 16 * 2 ^ 24)
            ((if count == 0 then 256 else count) - 1)
            (P.outb ata_command 0x20 (
              P.outb ata_lba_high high (
                P.outb ata_lba_mid mid (
                  P.outb ata_lba_low low
                    (P.outb ata_sector_count count (P.outb ata_drive_head head s))))))
