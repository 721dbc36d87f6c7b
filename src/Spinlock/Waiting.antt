-- ===== src/Spinlock/Waiting.antt =====
-- How long a thread waits for the lock of include/kernel/scheduler.h.
use svetos_kernel.Base.{ℕ, ◌≡◌, ◌≢◌, List, [], ◌∷◌}
use svetos_kernel.Spinlock.{passed, critical, State}

-- `h` has no turn in the schedule.
abbrev pub Without : ℕ → List ℕ → Type 0
Without h [] = Unit
Without h (i ∷ is) = (i ≢ h) × Without h is

-- `h` is the only one inside and has the lock, and no other thread is about to enter.
pub record IsHolding (h : ℕ) (s : State) : Type 0 where
  pub inside : s.pc h ≡ critical
  pub locked : s.lock ≡ 1
  pub no_other : (k : ℕ) → k ≢ h → (s.pc k ≢ critical) × (s.pc k ≢ passed)
