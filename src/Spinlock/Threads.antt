-- ===== src/Spinlock/Threads.antt =====
-- What a turn of a thread on the lock of include/kernel/scheduler.h does, by where it stands.
use svetos_kernel.Base.{ℕ, ◌≡◌, ◌≢◌, ◌⊎◌, inl, inr, refl, false, ◌==◌, arith}
use svetos_kernel.Spinlock.{Pc, outside, spinning, passed, critical, State, place, step}

-- the states that a schedule reaches with `move` for a turn
pub data Reach (move : ℕ → State → State) (s : State) : State → Type 0 where
  here : Reach move s s
  next : {t : State} → Reach move s t → (i : ℕ) → Reach move s (move i t)

pub Pc-cases : (p : Pc) → (p ≡ outside) ⊎ (p ≡ spinning) ⊎ (p ≡ passed) ⊎ (p ≡ critical)
Pc-cases outside = inl refl
Pc-cases spinning = inr (inl refl)
Pc-cases passed = inr (inr (inl refl))
Pc-cases critical = inr (inr (inr refl))

pub place-here : (i : ℕ) (p : Pc) (pc : ℕ → Pc) → place i p pc i ≡ p
place-here i p pc = ground arith

pub place-other : (i j : ℕ) (p : Pc) (pc : ℕ → Pc) → j ≢ i → place i p pc j ≡ pc j
place-other i j p pc ne = ground arith

pub step-outside :
    (i : ℕ) (s : State)
    → s.pc i ≡ outside
    → step i s ≡ record { lock = s.lock; pc = place i spinning s.pc }
unfolding step
step-outside i s e = rw e

pub step-free :
    (i : ℕ) (s : State)
    → s.pc i ≡ spinning
    → s.lock ≡ 0
    → step i s ≡ record { lock = s.lock; pc = place i passed s.pc }
unfolding step
step-free i s e free = rw (e, free)

pub step-held : (i : ℕ) (s : State) → s.pc i ≡ spinning → s.lock ≢ 0 → step i s ≡ s
unfolding step
step-held i s e held = let miss : (s.lock == 0) ≡ false = ground arith in rw (e, miss)

pub step-passed :
    (i : ℕ) (s : State)
    → s.pc i ≡ passed
    → step i s ≡ record { lock = 1; pc = place i critical s.pc }
unfolding step
step-passed i s e = rw e

pub step-critical :
    (i : ℕ) (s : State)
    → s.pc i ≡ critical
    → step i s ≡ record { lock = 0; pc = place i outside s.pc }
unfolding step
step-critical i s e = rw e
