-- ===== src/Messages/Tests.antt =====
-- The string "hi there" in a buffer of five bytes.
use svetos_kernel.Base.{ℕ, ◌-◌, ◌^◌, ◌<◌, ◌≡◌, inr, min, refl, some, [], ◌∷◌, get_or, arith}
use svetos_kernel.Strings.{Bytes}
use svetos_kernel.Strings.Laws.{IsString}
use svetos_kernel.Messages.{vsnprintf}
use svetos_kernel.Messages.Format.{IsFormatted, vsnprintf_lem}

abbrev memory : Bytes
memory a = get_or (104 ∷ 105 ∷ 32 ∷ 116 ∷ 104 ∷ 101 ∷ 114 ∷ 101 ∷ []) (a - 200) 0

memory-IsString : IsString memory 200 8
memory-IsString = (λ i lt. ground arith, refl)

vsnprintf_lem_example :
    (c : ℕ) × (mem' : Bytes) × (vsnprintf 20 400 5 200 memory ≡ some (c, mem'))
    × IsFormatted 400 200 c memory mem'
    × (0 < 5 → c ≡ min 8 (5 - 1))
    × (◌≡◌ {A = ℕ} 5 0 → 8 < 2 ^ 32 → c ≡ 8)
vsnprintf_lem_example =
    vsnprintf_lem 8 20 400 5 200 memory memory-IsString (inr (omega arith)) (omega arith)
      (omega arith)
