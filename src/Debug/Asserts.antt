-- ===== src/Debug/Asserts.antt =====
-- What an assertion of kernel/src/debug.c does to memory.
use svetos_kernel.Base.{
  ℕ, suc, ◌+◌, ◌≤◌, ◌<◌, ◌≡◌, ◌≢◌, ◌⊎◌, min, refl, false, some, List, ◌==◌, ap, sym, ◌∙◌, arith,
}
use svetos_kernel.Strings.{Bytes}
use svetos_kernel.Strings.Laws.{IsString}
use svetos_kernel.Base.Text.{codes}
use svetos_kernel.Ports.{Ports}
use svetos_kernel.Serial.{serial_puts}
use svetos_kernel.Serial.Line.{SerialLine, IsQuick, line_bytes, send_all, serial_puts_lem}
use svetos_kernel.Messages.{printk, vsnprintf, snprintf}
use svetos_kernel.Messages.Format.{vsnprintf_lem}
use svetos_kernel.Debug.{Debug, returned, halted, panic, debug_assert}

-- the `n` bytes from `p` lie apart from the `k` bytes from `q`
abbrev pub Apart : (p n q k : ℕ) → Type 0
Apart p n q k = (p + n ≤ q) ⊎ (q + k ≤ p)

-- The texts lie apart from both buffers, and the buffers from each other.
pub record IsPlaced (n k buffer full_msg format failed : ℕ) : Type 0 where
  pub first : Apart buffer (suc n) format (suc n)
  pub second : Apart full_msg (suc k) failed (suc k)
  pub untouched : Apart buffer 256 failed (suc k)
  pub buffers : Apart buffer 256 full_msg 256

IsString-kept :
    (mem mem' : Bytes) (s n : ℕ)
    → ((i : ℕ) → i ≤ n → mem' (s + i) ≡ mem (s + i))
    → IsString mem s n
    → IsString mem' s n
IsString-kept mem mem' s n same str =
    (λ i lt e. str.0 i lt (sym (same i (omega arith)) ∙ e), same n (omega arith) ∙ str.1)

abbrev pub full_format : List ℕ
full_format = codes "%s\n"

abbrev pub panic_format : List ℕ
panic_format = codes "PANIC: %s at %s:%d\n"

module _ (P : Ports) where
  assert_fails :
      (fuel wait condition buffer full_msg format failed c c' : ℕ) (d : Debug) (mem mem' : Bytes)
      (s t u : P.State)
      → condition ≡ 0
      → vsnprintf fuel buffer 256 format d.memory ≡ some (c, mem)
      → vsnprintf fuel full_msg 256 failed mem ≡ some (c', mem')
      → serial_puts P wait full_format s ≡ some t
      → serial_puts P wait panic_format t ≡ some u
      → debug_assert P fuel wait condition buffer full_msg format failed d s
        ≡ some (halted (record d { memory = mem' }) u)
  unfolding debug_assert snprintf panic printk
  assert_fails fuel wait condition buffer full_msg format failed c c' d mem mem' s t u failing ran
        ran' out out' =
      rw (failing, ran, ran', out, out') refl

  -- An assertion that holds returns and changes nothing. One that fails, on a serial line that is
  -- ready and given a round for each character of the two formats and one more, ends in the endless
  -- loop of `panic`. It writes only to its two buffers of 256 bytes, and the second then holds the
  -- literal text of the second format, cut off after 255 characters. The line has been sent the
  -- formats of the two messages and nothing of either buffer.
  pub debug_assert-ends :
      (wait : ℕ) (L : SerialLine P wait) (n k fuel condition buffer full_msg format failed : ℕ)
      (d : Debug) (s : P.State)
      → IsQuick P wait L s
      → IsString d.memory format n
      → IsString d.memory failed k
      → IsPlaced n k buffer full_msg format failed
      → n < fuel
      → k < fuel
      → (condition ≢ 0
          → debug_assert P fuel wait condition buffer full_msg format failed d s
            ≡ some (returned d s))
        × (condition ≡ 0
            → (mem' : Bytes) × (u : P.State) × (debug_assert P fuel wait condition buffer full_msg
                  format failed d s
                ≡ some (halted (record d { memory = mem' }) u))
              × (L.sent u
                  ≡ send_all
                      (line_bytes (codes "PANIC: %s at %s:%d\n"))
                      (send_all (line_bytes (codes "%s\n")) (L.sent s)))
              × ((i : ℕ) → i < min k 255 → mem' (full_msg + i) ≡ d.memory (failed + i))
              × (mem' (full_msg + min k 255) ≡ 0)
              × ((a : ℕ)
                  → (a < buffer) ⊎ (buffer + 256 ≤ a)
                  → (a < full_msg) ⊎ (full_msg + 256 ≤ a)
                  → mem' a ≡ d.memory a))
  unfolding debug_assert snprintf
  debug_assert-ends wait L n k fuel condition buffer full_msg format failed d s quick text text' p
        enough enough' =
      let (c1, mem1, ran1, f1, exact1, _) =
        vsnprintf_lem n fuel buffer 256 format d.memory text (ground (arith, p.first)) enough
          (omega arith) in
      let c1_le = exact1 (omega arith) in
      let same : (i : ℕ) → i ≤ k → mem1 (failed + i) ≡ d.memory (failed + i) =
        λ i le. f1.others (failed + i) (ground (arith, p.untouched, c1_le)) in
      let (c2, mem2, ran2, f2, exact2, _) =
        vsnprintf_lem k fuel full_msg 256 failed mem1
          (IsString-kept d.memory mem1 failed k same text') (ground (arith, p.second)) enough'
          (omega arith) in
      let c2_eq = exact2 (omega arith) in
      let (t, puts, out, quick') = serial_puts_lem P wait L full_format s quick in
      let (u, puts', out', _) = serial_puts_lem P wait L panic_format t quick' in
      (
        λ held. let miss : (condition == 0) ≡ false = ground arith in rw miss refl,
        λ failing. (
          mem2,
          u,
          assert_fails fuel wait condition buffer full_msg format failed c1 c2 d mem1 mem2 s t u
              failing ran1 ran2 puts puts',
          out' ∙ ap (send_all (line_bytes panic_format)) out,
          λ i lt. f2.copied i (omega (arith, c2_eq)) ∙ same i (omega arith),
          ap (λ c. mem2 (full_msg + c)) (sym c2_eq) ∙ f2.ended,
          λ a away away'. f2.others a (ground (arith, c2_eq)) ∙ f1.others a (ground (arith, c1_le)),
        ),
      )
