-- ===== src/Strings/Tests.antt =====
-- The string "AB" at 10, and copies of it.
use svetos_kernel.Base.{ℕ, zero, suc, ◌+◌, ◌<◌, ◌≢◌, arith, refl, ◌==◌, if◌then◌else◌}
use svetos_kernel.Strings.{Bytes}
use svetos_kernel.Strings.Laws.{IsString}

abbrev ab : Bytes
ab a = if a == 10 then 65 else if a == 11 then 66 else 0

ab-IsString : IsString ab 10 2
ab-IsString = (chars, refl)
  where
    chars : (i : ℕ) → i < 2 → ab (10 + i) ≢ 0
    chars zero lt e = omega arith
    chars (suc zero) lt e = omega arith
    chars (suc (suc i)) lt e = absurd (omega arith)
