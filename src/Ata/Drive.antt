-- ===== src/Ata/Drive.antt =====
-- A disk whose sectors hold their own numbers, on a drive that keeps its host waiting for two reads
-- of the status.
use svetos_kernel.Base.{
  ℕ, zero, suc, ◌+◌, ◌-◌, ◌*◌, ◌%◌, ◌^◌, ◌≡◌, refl, List, [], ◌∷◌, ◌==◌, if◌then◌else◌, replicate,
  length-replicate, arith,
}
use svetos_kernel.Ports.{Ports}
use svetos_kernel.Ata.Disk.{AtaDisk}

pub data Phase : Type 0 where
  idle : ℕ → Phase
  preparing : (n lba count : ℕ) → Phase
  sending : List ℕ → (lba count : ℕ) → Phase

-- the registers, what the drive is doing, and what was printed
pub record Drive : Type 0 where
  pub head : ℕ
  pub count : ℕ
  pub low : ℕ
  pub mid : ℕ
  pub high : ℕ
  pub phase : Phase
  pub log : List (List ℕ)

abbrev pub content : ℕ → List ℕ
content lba = replicate 256 (lba % 2 ^ 16)

-- where the drive is with these words to be fetched
abbrev pub with_words : List ℕ → (lba count : ℕ) → Phase
with_words [] lba zero = idle 2
with_words [] lba (suc count) = preparing 2 lba count
with_words (w ∷ ws) lba count = sending (w ∷ ws) lba count

abbrev pub status : Phase → ℕ
status (idle zero) = 0x40
status (idle (suc n)) = 0x80
status (preparing zero lba count) = 0x48
status (preparing (suc n) lba count) = 0x80
status (sending ws lba count) = 0x48

abbrev pub seen : Phase → Phase
seen (idle zero) = idle zero
seen (idle (suc n)) = idle n
seen (preparing zero lba count) = with_words (content lba) (lba + 1) count
seen (preparing (suc n) lba count) = preparing n lba count
seen (sending ws lba count) = sending ws lba count

abbrev pub word : Phase → ℕ
word (idle n) = 0
word (preparing n lba count) = 0
word (sending [] lba count) = 0
word (sending (w ∷ ws) lba count) = w

abbrev pub fetched : Phase → Phase
fetched (idle n) = idle n
fetched (preparing n lba count) = preparing n lba count
fetched (sending [] lba count) = sending [] lba count
fetched (sending (w ∷ ws) lba count) = with_words ws lba count

abbrev pub write : ℕ → ℕ → Drive → Drive
write p v d =
    if p == 0x1F6
    then record d { head = v }
    else if p == 0x1F2
    then record d { count = v }
    else if p == 0x1F3
    then record d { low = v }
    else if p == 0x1F4
    then record d { mid = v }
    else if p == 0x1F5
    then record d { high = v }
    else record d {
      phase =
          preparing 2 (d.low + d.mid * 2 ^ 8 + d.high * 2 ^ 16 + d.head % 16 * 2 ^ 24)
            ((if d.count == 0 then 256 else d.count) - 1);
    }

abbrev pub bus : Ports
bus = record {
  State = Drive;
  inb = λ p d. (status d.phase, record d { phase = seen d.phase });
  inw = λ p d. (word d.phase, record d { phase = fetched d.phase });
  outb = write;
}

abbrev pub print : List ℕ → Drive → Drive
print msg d = record d { log = msg ∷ d.log }

abbrev pub disk : AtaDisk bus
disk = record {
  sector = content;
  sector-length = λ lba. length-replicate 256 (lba % 2 ^ 16);
  delay = 2;
  Idle = λ n d. d.phase ≡ idle n;
  Preparing = λ n lba count d. d.phase ≡ preparing n lba count;
  Sending = λ ws lba count d. d.phase ≡ with_words ws lba count;
  idle_busy = λ n d e. rw e (λ h. omega arith, refl);
  idle_ready = λ d e. rw e (refl, refl);
  prepare_busy = λ n lba count d e. rw e (refl, refl, refl);
  prepare_ready = λ lba count d e. rw e (λ h. omega arith, refl);
  send_word = λ w ws lba count d e. rw e (refl, refl);
  sent_sector = λ lba count d e. (2, omega arith, e);
  sent_all = λ lba d e. (2, omega arith, e);
  read_command = λ head count low mid high d e h c l m g. (2, omega arith, refl);
}

abbrev pub still : Drive
still = record { head = 0; count = 0; low = 0; mid = 0; high = 0; phase = idle 1; log = [] }
