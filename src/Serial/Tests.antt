-- ===== src/Serial/Tests.antt =====
-- A port that needs two reads of its status after each byte.
use svetos_kernel.Base.{
  ℕ, zero, suc, ◌≡◌, ◌≢◌, refl, some, List, [], ◌∷◌, ◌==◌, if◌then◌else◌, bit_and, arith,
}
use svetos_kernel.Ports.{Ports}
use svetos_kernel.Serial.{com1, com1_status, serial_puts}
use svetos_kernel.Serial.Line.{line_bytes, SerialLine, send_all, IsQuick, serial_puts_lem}

abbrev status : ℕ → ℕ × List ℕ → ℕ × (ℕ × List ℕ)
status p (zero, l) = (0x20, (zero, l))
status p (suc n, l) = (0, (n, l))

abbrev bus : Ports
bus = record {
  State = ℕ × List ℕ;
  inb = status;
  inw = status;
  outb = λ p c (n, l). if p == com1 then (2, c ∷ l) else (n, l);
}

ready :
    (s : ℕ × List ℕ)
    → s.0 ≡ 0
    → (bit_and (status com1_status s).0 0x20 ≢ 0) × ((status com1_status s).1.0 ≡ 0)
ready (zero, l) e = (λ h. omega arith, refl)
ready (suc n, l) e = absurd (omega arith)

busy :
    (n : ℕ) (s : ℕ × List ℕ)
    → s.0 ≡ suc n
    → (bit_and (status com1_status s).0 0x20 ≡ 0) × ((status com1_status s).1.0 ≡ n)
busy n (zero, l) e = absurd (omega arith)
busy n (suc m, l) e = (refl, omega arith)

status_sent : (s : ℕ × List ℕ) → (status com1_status s).1.1 ≡ s.1
status_sent (zero, l) = refl
status_sent (suc n, l) = refl

abbrev line : SerialLine bus 5
line = record {
  Waits = λ n s. s.0 ≡ n;
  sent = λ s. s.1;
  ready = ready;
  busy = busy;
  status_sent = status_sent;
  send = λ c s w. (refl, 2, omega arith, refl);
}

serial_puts_lem_example :
    (t : ℕ × List ℕ) × (serial_puts bus 5 (72 ∷ 10 ∷ []) (0, []) ≡ some t)
    × (t.1 ≡ send_all (line_bytes (72 ∷ 10 ∷ [])) [])
    × IsQuick bus 5 line t
serial_puts_lem_example = serial_puts_lem bus 5 line (72 ∷ 10 ∷ []) (0, []) (0, omega arith, refl)
