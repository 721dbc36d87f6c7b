-- ===== src/Debug/Tests.antt =====
-- A failed assertion with the format "x=%d".
use svetos_kernel.Base.{
  ℕ, ◌+◌, ◌-◌, ◌≤◌, ◌<◌, ◌≡◌, ◌≢◌, ◌⊎◌, inl, min, refl, none, some, get_or, ltb, if◌then◌else◌,
  arith,
}
use svetos_kernel.Base.Text.{codes}
use svetos_kernel.Strings.Laws.{IsString}
use svetos_kernel.Strings.{Bytes}
use svetos_kernel.Serial.Line.{line_bytes, send_all}
use svetos_kernel.Serial.Example.{Uart, bus, line, quiet}
use svetos_kernel.Debug.{Debug, returned, halted, debug_assert}
use svetos_kernel.Debug.Asserts.{IsPlaced, debug_assert-ends}

-- the texts at 6000 and at 7000
abbrev memory : Bytes
memory a =
    if ltb a 7000 then get_or (codes "x=%d") (a - 6000) 0 else get_or (codes "FAILED") (a - 7000) 0

format-IsString : IsString memory 6000 4
format-IsString = (λ i lt. ground arith, refl)

failed-IsString : IsString memory 7000 6
failed-IsString = (λ i lt. ground arith, refl)

abbrev running : Debug
running = record { current_test = none; memory = memory }

placed : IsPlaced 4 6 4000 5000 6000 7000
placed = record {
  first = inl (omega arith);
  second = inl (omega arith);
  untouched = inl (omega arith);
  buffers = inl (omega arith);
}

debug_assert-ends_example :
    (◌≢◌ {A = ℕ} 0 0
      → debug_assert bus 9 5 0 4000 5000 6000 7000 running quiet ≡ some (returned running quiet))
    × (◌≡◌ {A = ℕ} 0 0
        → (mem' : Bytes) × (u : Uart) × (debug_assert bus 9 5 0 4000 5000 6000 7000 running quiet
            ≡ some (halted (record running { memory = mem' }) u))
          × (line.sent u
              ≡ send_all
                  (line_bytes (codes "PANIC: %s at %s:%d\n"))
                  (send_all (line_bytes (codes "%s\n")) (line.sent quiet)))
          × ((i : ℕ) → i < min 6 255 → mem' (5000 + i) ≡ memory (7000 + i))
          × (mem' (5000 + min 6 255) ≡ 0)
          × ((a : ℕ)
              → (a < 4000) ⊎ (4000 + 256 ≤ a)
              → (a < 5000) ⊎ (5000 + 256 ≤ a)
              → mem' a ≡ memory a))
debug_assert-ends_example =
    debug_assert-ends bus 5 line 4 6 9 0 4000 5000 6000 7000 running quiet
      (0, omega arith, (refl, refl)) format-IsString failed-IsString placed (omega arith)
      (omega arith)
