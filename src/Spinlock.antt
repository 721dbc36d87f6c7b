-- ===== src/Spinlock.antt =====
-- The spinlock of include/kernel/scheduler.h under threads that take turns, one memory access at a
-- time. Every thread locks, is in its critical section, unlocks, and starts anew.
pub mod Threads
pub mod Race
pub mod Exclusion
pub mod Waiting
mod Tests
use svetos_kernel.Base.{ℕ, Bool, true, false, List, [], ◌∷◌, ◌==◌, if◌then◌else◌}

-- where a thread stands: `passed` is behind the loop of `spinlock_lock`, before its store
pub data Pc : Type 0 where
  outside spinning passed critical : Pc

pub record State : Type 0 where
  pub lock : ℕ
  pub pc : ℕ → Pc

abbrev pub spinlock_init : ℕ
spinlock_init = 0

-- the store behind the loop of `spinlock_lock`
abbrev pub spinlock_store : ℕ
spinlock_store = 1

abbrev pub spinlock_unlock : ℕ
spinlock_unlock = 0

abbrev pub place : ℕ → Pc → (ℕ → Pc) → ℕ → Pc
place i p pc j = if j == i then p else pc j

-- the next memory access of thread `i`, which stands at the given place
abbrev pub access : ℕ → Pc → State → State
access i outside s = record s { pc = place i spinning s.pc }
access i spinning s = if s.lock == 0 then record s { pc = place i passed s.pc } else s
access i passed s = record { lock = spinlock_store; pc = place i critical s.pc }
access i critical s = record { lock = spinlock_unlock; pc = place i outside s.pc }

unfoldable pub step : ℕ → State → State
step i s = access i (s.pc i) s

-- a schedule: the threads in the order of their turns
unfoldable pub run : List ℕ → State → State
run [] s = s
run (i ∷ is) s = run is (step i s)

abbrev pub is_passed : Pc → Bool
is_passed outside = false
is_passed spinning = false
is_passed passed = true
is_passed critical = false

-- a turn that nothing interrupts between the read that finds the lock free and the store
unfoldable pub turn : ℕ → State → State
turn i s = let t = step i s in if is_passed (t.pc i) then step i t else t

abbrev pub start : State
start = record { lock = spinlock_init; pc = λ i. outside }
