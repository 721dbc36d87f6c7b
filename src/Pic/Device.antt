-- ===== src/Pic/Device.antt =====
-- What kernel/src/interrupts/pic.c relies on of the two controllers: past the four initialisation
-- words, the data port of each reads and writes its mask register.
use svetos_kernel.Base.{ℕ, ◌<◌, ◌≡◌, ◌≢◌, ◌⊎◌}
use svetos_kernel.Ports.{Ports}
use svetos_kernel.Pic.{pic1_data, pic2_data, icw}

abbrev pub IsData : ℕ → Type 0
IsData p = (p ≡ pic1_data) ⊎ (p ≡ pic2_data)

pub record PicDevice (P : Ports) : Type 1 where
  -- initialised
  pub Ready : P.State → Type 0
  pub mask : ℕ → P.State → ℕ
  pub mask_small : (p : ℕ) (s : P.State) → mask p s < 256
  pub inb_mask : (p : ℕ) (s : P.State) → IsData p → Ready s → P.inb p s ≡ (mask p s, s)
  pub outb_mask : (p v : ℕ) (s : P.State) → IsData p → Ready s → v < 256 → mask p (P.outb p v s) ≡ v
  pub outb_other :
      (p q v : ℕ) (s : P.State)
      → IsData p
      → IsData q
      → p ≢ q
      → Ready s
      → mask q (P.outb p v s) ≡ mask q s
  pub outb-Ready : (p v : ℕ) (s : P.State) → IsData p → Ready s → Ready (P.outb p v s)
  pub icw-Ready : (offset1 offset2 : ℕ) (s : P.State) → Ready (icw P offset1 offset2 s)
