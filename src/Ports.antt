-- ===== src/Ports.antt =====
-- The input and output instructions of include/kernel/hal/port_io.h, which act on the machine.
use svetos_kernel.Base.{ℕ}

pub record Ports : Type 1 where
  pub State : Type 0
  pub inb : ℕ → State → ℕ × State
  pub inw : ℕ → State → ℕ × State
  pub outb : (port value : ℕ) → State → State
