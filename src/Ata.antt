-- ===== src/Ata.antt =====
-- The disk driver modules/drivers/storage/ata/ata_module.c. The result of a read is whether it
-- returned 0, with the words that it has put into the buffer.
pub mod Disk
pub mod Drive
pub mod Read
pub mod Improved
pub mod Simple
mod Tests
use svetos_kernel.Base.{
  ℕ, zero, suc, ◌*◌, Bool, true, false, List, [], ◌∷◌, ◌++◌, ◌==◌, if◌then◌else◌, bit_and, bit_or,
  u8, ◌>>>◌,
}
use svetos_kernel.Base.Int.{ℤ, pos}
use svetos_kernel.Base.Text.{codes}
use svetos_kernel.Ports.{Ports}

abbrev pub ata_data : ℕ
ata_data = 0x1F0

abbrev pub ata_sector_count : ℕ
ata_sector_count = 0x1F2

abbrev pub ata_lba_low : ℕ
ata_lba_low = 0x1F3

abbrev pub ata_lba_mid : ℕ
ata_lba_mid = 0x1F4

abbrev pub ata_lba_high : ℕ
ata_lba_high = 0x1F5

abbrev pub ata_drive_head : ℕ
ata_drive_head = 0x1F6

-- `ATA_COMMAND` and `ATA_STATUS`
abbrev pub ata_command : ℕ
ata_command = 0x1F7

-- the rounds of both waiting loops
unfoldable pub ata_timeout : ℕ
ata_timeout = 100000

abbrev pub lba_head : ℕ → ℕ
lba_head lba = u8 (bit_or 0xE0 (bit_and (lba >>> 24) 0x0F))

-- `print` is what `printk` does to the machine with a format.
module _ (P : Ports) (print : List ℕ → P.State → P.State) where
  open P use {State, inb, inw, outb}

  unfoldable pub wait_busy : ℕ → State → Bool × State
  wait_busy zero s = (false, s)
  wait_busy (suc timeout) s =
      let (status, s') = inb ata_command s in
      let rest = wait_busy timeout s' in if bit_and status 0x80 == 0 then (true, s') else rest

  unfoldable pub wait_drq : ℕ → State → Bool × State
  wait_drq zero s = (false, s)
  wait_drq (suc timeout) s =
      let (status, s') = inb ata_command s in
      let rest = wait_drq timeout s' in
      if bit_and status 0x08 == 0
      then (if bit_and status 0x01 == 0 then rest else (false, s'))
      else (true, s')

  -- the port writes that start a read
  unfoldable pub send_command : (lba count : ℕ) → State → State
  send_command lba count s = outb ata_command 0x20 (
      outb ata_lba_high (bit_and (lba >>> 16) 0xFF) (
        outb ata_lba_mid (bit_and (lba >>> 8) 0xFF) (
          outb ata_lba_low (bit_and lba 0xFF)
            (outb ata_sector_count (u8 count) (outb ata_drive_head (lba_head lba) s)))))

  unfoldable pub read_words : ℕ → State → List ℕ × State
  read_words zero s = ([], s)
  read_words (suc n) s =
      let (w, s') = inw ata_data s in let (ws, s'') = read_words n s' in (w ∷ ws, s'')

  -- what follows the wait for a sector
  abbrev pub after_wait {ℓ} : {B : Type ℓ} → Bool × State → (State → B) → (State → B) → B
  after_wait (ok, s) failed k = if ok then k s else failed s

  -- the loop over the sectors
  unfoldable pub read_all : ℕ → State → Bool × List ℕ × State
  read_all zero s = (true, [], s)
  read_all (suc count) s =
      after_wait (wait_drq ata_timeout s)
        (λ t. (false, [], print (codes "ATA: DRQ timeout on sector %d\n") t))
        λ t.
          let (ws, t') = read_words 256 t in
          let (ok, rest, t'') = read_all count t' in (ok, ws ++ rest, t'')

  -- the message behind a read that has come to its end
  abbrev pub reported : Bool × List ℕ × State → Bool × List ℕ × State
  reported (ok, ws, t) =
      (ok, ws, if ok then print (codes "ATA: Read %d sectors from LBA %lld\n") t else t)

  unfoldable pub ata_read_sectors : (lba count : ℕ) → State → Bool × List ℕ × State
  ata_read_sectors lba count s =
      after_wait (wait_busy ata_timeout s)
        (λ t. (false, [], print (codes "ATA: Device busy timeout\n") t))
        λ t. reported (read_all count (send_command lba count t))

unfoldable pub ata_get_capacity : ℕ
ata_get_capacity = 32 * 1024 * 1024

-- `ata_ioctl` accepts every command.
unfoldable pub ata_ioctl : (cmd : ℕ) → ℤ
ata_ioctl cmd = pos 0
