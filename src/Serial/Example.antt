-- ===== src/Serial/Example.antt =====
-- A machine with a serial port that needs two reads of its status after each byte.
use svetos_kernel.Base.{
  ℕ, zero, suc, ◌≡◌, ◌≢◌, refl, Bool, false, not, List, [], ◌∷◌, ◌==◌, if◌then◌else◌, bit_and,
  arith,
}
use svetos_kernel.Ports.{Ports}
use svetos_kernel.Serial.{com1, com1_status}
use svetos_kernel.Serial.Line.{SerialLine}

-- While `latch` is set, the data register holds the divisor.
pub record Uart : Type 0 where
  pub latch : Bool
  pub busy : ℕ
  pub out : List ℕ

abbrev pub tick : ℕ → ℕ
tick zero = zero
tick (suc n) = n

abbrev pub flag : ℕ → ℕ
flag zero = 0x20
flag (suc n) = 0

abbrev pub status : ℕ → Uart → ℕ × Uart
status p s = if p == com1_status then (flag s.busy, record s { busy = tick s.busy }) else (0, s)

abbrev pub put : ℕ → Uart → Uart
put c s = if s.latch then s else record s { busy = 2; out = c ∷ s.out }

abbrev pub write : ℕ → ℕ → Uart → Uart
write p c s =
    if p == 0x3FB
    then record s { latch = not (bit_and c 0x80 == 0) }
    else if p == 0x3FA
    then record s { busy = 0 }
    else if p == com1
    then put c s
    else s

abbrev pub bus : Ports
bus = record { State = Uart; inb = status; inw = status; outb = write }

-- not ready for `n` more reads, with the data register ready for bytes
abbrev pub Waits : ℕ → Uart → Type 0
Waits n s = (s.busy ≡ n) × (s.latch ≡ false)

pub ready : (b : ℕ) → b ≡ 0 → (bit_and (flag b) 0x20 ≢ 0) × (tick b ≡ 0)
ready zero e = (λ h. omega arith, refl)
ready (suc b) e = absurd (omega arith)

pub busy : (n b : ℕ) → b ≡ suc n → (bit_and (flag b) 0x20 ≡ 0) × (tick b ≡ n)
busy n zero e = absurd (omega arith)
busy n (suc b) e = (refl, omega arith)

abbrev pub line : SerialLine bus 5
line = record {
  Waits = Waits;
  sent = λ s. s.out;
  ready = λ s w. let (a, b) = ready s.busy w.0 in (a, (b, w.1));
  busy = λ n s w. let (a, b) = busy n s.busy w.0 in (a, (b, w.1));
  status_sent = λ s. refl;
  send = λ c s w. let open_line = w.1 in rw open_line (refl, 2, omega arith, (refl, refl));
}

-- set up and ready
abbrev pub quiet : Uart
quiet = record { latch = false; busy = 0; out = [] }
