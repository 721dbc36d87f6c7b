-- ===== src/Ata/Read.antt =====
-- A read by modules/drivers/storage/ata/ata_module.c brings the sectors.
use svetos_kernel.Base.{
  ℕ, zero, suc, ◌+◌, ◌-◌, ◌≤◌, if◌then◌else◌, ◌*◌, ◌/◌, ◌%◌, ◌^◌, ◌<◌, ◌≡◌, refl, true, false, List,
  [], ◌∷◌, ◌==◌, length, bit_and, bit_or, u8, subst, arith,
}
use svetos_kernel.Base.Bits.{bit_and-mask, bit_or-fields}
use svetos_kernel.Base.Text.{codes}
use svetos_kernel.Ports.{Ports}
use svetos_kernel.Ata.{
  ata_command, ata_data, ata_timeout, lba_head, wait_busy, wait_drq, send_command, read_words,
  read_all, ata_read_sectors,
}
use svetos_kernel.Ata.Disk.{AtaDisk, sectors}

-- The registers hold the block address.
abbrev address : ℕ → ℕ
address lba =
    bit_and lba 0xFF
    + bit_and (lba / 2 ^ 8) 0xFF * 2 ^ 8
    + bit_and (lba / 2 ^ 16) 0xFF * 2 ^ 16
    + lba_head lba % 16 * 2 ^ 24

address_lem : (lba : ℕ) → lba < 2 ^ 28 → address lba ≡ lba
address_lem lba small =
    let low : bit_and lba 0xFF ≡ lba % 2 ^ 8 = bit_and-mask 8 lba in
    let mid : bit_and (lba / 2 ^ 8) 0xFF ≡ lba / 2 ^ 8 % 2 ^ 8 = bit_and-mask 8 (lba / 2 ^ 8) in
    let high : bit_and (lba / 2 ^ 16) 0xFF ≡ lba / 2 ^ 16 % 2 ^ 8 = bit_and-mask 8 (lba / 2 ^ 16) in
    let top : bit_and (lba / 2 ^ 24) 0x0F ≡ lba / 2 ^ 24 % 2 ^ 4 = bit_and-mask 4 (lba / 2 ^ 24) in
    let head : bit_or 0xE0 (lba / 2 ^ 24 % 2 ^ 4) ≡ 14 * 2 ^ 4 + lba / 2 ^ 24 % 2 ^ 4 =
      bit_or-fields 4 14 (lba / 2 ^ 24 % 2 ^ 4) (omega arith) in
    rw (low, mid, high, top, head) (omega arith)

-- The upper half of the register for drive and head is 0xE.
head_lem : (lba : ℕ) → lba_head lba / 16 ≡ 0xE
head_lem lba =
    let top : bit_and (lba / 2 ^ 24) 0x0F ≡ lba / 2 ^ 24 % 2 ^ 4 = bit_and-mask 4 (lba / 2 ^ 24) in
    let head : bit_or 0xE0 (lba / 2 ^ 24 % 2 ^ 4) ≡ 14 * 2 ^ 4 + lba / 2 ^ 24 % 2 ^ 4 =
      bit_or-fields 4 14 (lba / 2 ^ 24 % 2 ^ 4) (omega arith) in
    rw (top, head) (omega arith)

byte_small : (a : ℕ) → bit_and a 0xFF < 256
byte_small a = let byte : bit_and a 0xFF ≡ a % 2 ^ 8 = bit_and-mask 8 a in rw byte (omega arith)

-- the register for the count, of which 0 says 256
count_lem :
    (count : ℕ)
    → 0 < count
    → count ≤ 256
    → (if u8 count == 0 then 256 else u8 count) - 1 ≡ count - 1
count_lem count pos few = ground arith

module _ (P : Ports) (print : List ℕ → P.State → P.State) (D : AtaDisk P) where
  busy_ends :
      (timeout n : ℕ) (s : P.State)
      → D.Idle n s
      → n < timeout
      → (t : P.State) × (wait_busy P print timeout s ≡ (true, t)) × D.Idle 0 t
  unfolding wait_busy
  busy_ends zero n s idle lt = absurd (omega arith)
  busy_ends (suc timeout) zero s idle lt =
      let (clear, idle') = D.idle_ready s idle in ((P.inb ata_command s).1, rw clear, idle')
  busy_ends (suc timeout) (suc n) s idle lt =
      let (set, idle') = D.idle_busy n s idle in
      let (t, ran, idle'') = busy_ends timeout n (P.inb ata_command s).1 idle' (omega arith) in
      let miss : (bit_and (P.inb ata_command s).0 0x80 == 0) ≡ false = ground arith in
      (t, rw miss ran, idle'')

  waits :
      (n : ℕ) (s : P.State)
      → D.Idle n s
      → n < 100000
      → (t : P.State) × (wait_busy P print ata_timeout s ≡ (true, t)) × D.Idle 0 t
  unfolding ata_timeout
  waits n s idle lt = busy_ends 100000 n s idle lt

  drq_comes :
      (timeout n lba count : ℕ) (s : P.State)
      → D.Preparing n lba count s
      → n < timeout
      → (t : P.State) × (wait_drq P print timeout s ≡ (true, t))
        × D.Sending (D.sector lba) (lba + 1) count t
  unfolding wait_drq
  drq_comes zero n lba count s prepares lt = absurd (omega arith)
  drq_comes (suc timeout) zero lba count s prepares lt =
      let (raised, sends) = D.prepare_ready lba count s prepares in
      let miss : (bit_and (P.inb ata_command s).0 0x08 == 0) ≡ false = ground arith in
      ((P.inb ata_command s).1, rw miss, sends)
  drq_comes (suc timeout) (suc n) lba count s prepares lt =
      let (low, fine, prepares') = D.prepare_busy n lba count s prepares in
      let (t, ran, sends) =
        drq_comes timeout n lba count (P.inb ata_command s).1 prepares' (omega arith) in
      (t, rw (low, fine) ran, sends)

  words_read :
      (ws : List ℕ) (lba count : ℕ) (s : P.State)
      → D.Sending ws lba count s
      → (t : P.State) × (read_words P print (length ws) s ≡ (ws, t)) × D.Sending [] lba count t
  unfolding read_words
  words_read [] lba count s sends = (s, refl, sends)
  words_read (w ∷ ws) lba count s sends =
      let (here, sends') = D.send_word w ws lba count s sends in
      let (t, ran, done) = words_read ws lba count (P.inw ata_data s).1 sends' in
      (t, rw (here, ran), done)

  one_read :
      (n lba count : ℕ) (s : P.State)
      → D.Preparing n lba count s
      → n < 100000
      → (t : P.State) × (u : P.State) × (wait_drq P print ata_timeout s ≡ (true, t))
        × (read_words P print 256 t ≡ (D.sector lba, u))
        × D.Sending [] (lba + 1) count u
  unfolding ata_timeout
  one_read n lba count s prepares lt =
      let (t, ran, sends) = drq_comes 100000 n lba count s prepares lt in
      let (u, ran', done) = words_read (D.sector lba) (lba + 1) count t sends in
      (
        t,
        u,
        ran,
        subst (λ k. read_words P print k t ≡ (D.sector lba, u)) (D.sector-length lba) ran',
        done,
      )

  all_read :
      (count n lba : ℕ) (s : P.State)
      → D.Preparing n lba count s
      → n ≤ D.delay
      → D.delay < 100000
      → (t : P.State) × (k : ℕ) × (read_all P print (suc count) s
          ≡ (true, sectors D.sector lba (suc count), t))
        × (k ≤ D.delay)
        × D.Idle k t
  unfolding read_all sectors
  all_read zero n lba s prepares le quick =
      let (t, u, waited, fetched, done) = one_read n lba 0 s prepares (omega arith) in
      let (k, le', idle) = D.sent_all (lba + 1) u done in
      (u, k, rw (waited, fetched) refl, le', idle)
  all_read (suc count) n lba s prepares le quick =
      let (t, u, waited, fetched, done) = one_read n lba (suc count) s prepares (omega arith) in
      let (n', le', prepares') = D.sent_sector (lba + 1) count u done in
      let (v, k, ran, le'', idle) = all_read count n' (lba + 1) u prepares' le' quick in
      (v, k, rw (waited, fetched, ran) refl, le'', idle)

  started :
      (lba count : ℕ) (t : P.State)
      → D.Idle 0 t
      → lba < 2 ^ 28
      → 0 < count
      → count ≤ 256
      → (n : ℕ) × (n ≤ D.delay) × D.Preparing n lba (count - 1) (send_command P print lba count t)
  unfolding send_command
  started lba count t idle small pos few =
      let (n, le, prepares) =
        D.read_command (lba_head lba) (u8 count) (bit_and lba 0xFF) (bit_and (lba / 2 ^ 8) 0xFF)
          (bit_and (lba / 2 ^ 16) 0xFF) t idle (head_lem lba) (omega arith) (byte_small lba)
          (byte_small (lba / 2 ^ 8)) (byte_small (lba / 2 ^ 16)) in
      let asked =
        subst (λ c. D.Preparing n (address lba) c (send_command P print lba count t))
          (count_lem count pos few) prepares in
      (
        n,
        le,
        subst (λ a. D.Preparing n a (count - 1) (send_command P print lba count t))
            (address_lem lba small) asked,
      )

  read_runs :
      (lba count : ℕ) (s t u : P.State) (ws : List ℕ)
      → wait_busy P print ata_timeout s ≡ (true, t)
      → read_all P print count (send_command P print lba count t) ≡ (true, ws, u)
      → ata_read_sectors P print lba count s
        ≡ (true, ws, print (codes "ATA: Read %d sectors from LBA %lld\n") u)
  unfolding ata_read_sectors
  read_runs lba count s t u ws ran ran' = rw (ran, ran') refl

  -- On a disk that has no read in progress, and keeps its host waiting for fewer than 100000 reads
  -- of the status, now and before each sector, a read of 1 to 256 sectors from a block below 2 ^ 28
  -- ends with success and fills the buffer with the words of these sectors, in order; then no read
  -- is in progress. (What is printed leaves an idle drive alone.)
  pub ata_read_sectors_lem :
      (lba count n : ℕ) (s : P.State)
      → ((msg : List ℕ) (k : ℕ) (u : P.State) → D.Idle k u → D.Idle k (print msg u))
      → D.delay < 100000
      → D.Idle n s
      → n < 100000
      → lba < 2 ^ 28
      → 0 < count
      → count ≤ 256
      → (t : P.State) × (k : ℕ) × (ata_read_sectors P print lba count s
          ≡ (true, sectors D.sector lba count, t))
        × (k ≤ D.delay)
        × D.Idle k t
  ata_read_sectors_lem lba zero n s quiet quick idle lt small pos few = absurd (omega arith)
  ata_read_sectors_lem lba (suc count) n s quiet quick idle lt small pos few =
      let (t, ran, idle') = waits n s idle lt in
      let (k, le, prepares) = started lba (suc count) t idle' small pos few in
      let (u, j, ran', le', idle'') =
        all_read count k lba (send_command P print lba (suc count) t)
          (subst (λ c. D.Preparing k lba c (send_command P print lba (suc count) t)) (omega arith)
            prepares)
          le quick in
      (
        print (codes "ATA: Read %d sectors from LBA %lld\n") u,
        j,
        read_runs lba (suc count) s t u (sectors D.sector lba (suc count)) ran ran',
        le',
        quiet (codes "ATA: Read %d sectors from LBA %lld\n") j u idle'',
      )
