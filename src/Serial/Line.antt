-- ===== src/Serial/Line.antt =====
-- What kernel/src/hal/serial.c sends.
use svetos_kernel.Base.{
  ℕ, zero, suc, ◌<◌, ◌≡◌, ◌≢◌, refl, false, some, List, [], ◌∷◌, ◌==◌, if◌then◌else◌, Bool-cases,
  inl, inr, bit_and, ap, ap₂, ◌∙◌, arith,
}
use svetos_kernel.Ports.{Ports}
use svetos_kernel.Serial.{
  com1, com1_status, serial_is_ready, serial_write, serial_putc, serial_puts,
}

-- the bytes on the line: a carriage return before each newline
pub line_bytes : List ℕ → List ℕ
line_bytes [] = []
line_bytes (c ∷ cs) = if c == 10 then 13 ∷ 10 ∷ line_bytes cs else c ∷ line_bytes cs

-- A port that is ready after at most `wait` reads of its status: `Waits n s` says that it is not
-- for the next `n`. `sent` are the bytes that went out, the last one first.
pub record SerialLine (P : Ports) (wait : ℕ) : Type 1 where
  pub Waits : ℕ → P.State → Type 0
  pub sent : P.State → List ℕ
  pub ready :
      (s : P.State)
      → Waits 0 s
      → (bit_and (P.inb com1_status s).0 0x20 ≢ 0) × Waits 0 (P.inb com1_status s).1
  pub busy :
      (n : ℕ) (s : P.State)
      → Waits (suc n) s
      → (bit_and (P.inb com1_status s).0 0x20 ≡ 0) × Waits n (P.inb com1_status s).1
  pub status_sent : (s : P.State) → sent (P.inb com1_status s).1 ≡ sent s
  pub send :
      (c : ℕ) (s : P.State)
      → Waits 0 s
      → (sent (P.outb com1 c s) ≡ c ∷ sent s) × (n : ℕ) × (n < wait) × Waits n (P.outb com1 c s)

-- the bytes of `xs` put in front of `ys`, one after the other
abbrev pub send_all : List ℕ → List ℕ → List ℕ
send_all [] ys = ys
send_all (x ∷ xs) ys = send_all xs (x ∷ ys)

module _ (P : Ports) (wait : ℕ) (L : SerialLine P wait) where
  -- The port will be ready within the fuel.
  abbrev pub IsQuick : P.State → Type 0
  IsQuick s = (n : ℕ) × (n < wait) × L.Waits n s

  written :
      (fuel n c : ℕ) (s : P.State)
      → n < fuel
      → L.Waits n s
      → (t : P.State) × (serial_write P fuel c s ≡ some t) × (L.sent t ≡ c ∷ L.sent s) × IsQuick t
  unfolding serial_write serial_is_ready
  written zero n c s lt w = absurd (omega arith)
  written (suc fuel) zero c s lt w =
      let (flag, w') = L.ready s w in
      let hit : (bit_and (P.inb com1_status s).0 0x20 == 0) ≡ false = ground arith in
      let (out, n', lt', w'') = L.send c (P.inb com1_status s).1 w' in
      (
        P.outb com1 c (P.inb com1_status s).1,
        rw hit,
        out ∙ ap (λ l. c ∷ l) (L.status_sent s),
        (n', lt', w''),
      )
  written (suc fuel) (suc n) c s lt w =
      let (flag, w') = L.busy n s w in
      let (t, ran, out, quick) = written fuel n c (P.inb com1_status s).1 (omega arith) w' in
      (t, rw flag ran, out ∙ ap (λ l. c ∷ l) (L.status_sent s), quick)

  -- On a port that is ready within `wait` reads of its status, `serial_puts` returns and sends the
  -- string's bytes in order, with a carriage return before each newline.
  pub serial_puts_lem :
      (cs : List ℕ) (s : P.State)
      → IsQuick s
      → (t : P.State) × (serial_puts P wait cs s ≡ some t)
        × (L.sent t ≡ send_all (line_bytes cs) (L.sent s))
        × IsQuick t
  unfolding serial_puts serial_putc line_bytes
  serial_puts_lem [] s quick = (s, refl, refl, quick)
  serial_puts_lem (c ∷ cs) s (n, lt, w) = elim (Bool-cases (c == 10)) [
    | inl nl ↦
        let same : c ≡ 10 = ground arith in
        let (t1, ran1, out1, (n1, lt1, w1)) = written wait n 13 s lt w in
        let (t2, ran2, out2, quick2) = written wait n1 c t1 lt1 w1 in
        let (t, ran, out, quick) = serial_puts_lem cs t2 quick2 in
        (
          t,
          rw (nl, ran1, ran2) ran,
          rw nl (out ∙ ap (send_all (line_bytes cs)) (out2 ∙ ap₂ ◌∷◌ same out1)),
          quick,
        )
    | inr other ↦
        let (t1, ran1, out1, quick1) = written wait n c s lt w in
        let (t, ran, out, quick) = serial_puts_lem cs t1 quick1 in
        (t, rw (other, ran1) ran, rw other (out ∙ ap (send_all (line_bytes cs)) out1), quick)
  ]
