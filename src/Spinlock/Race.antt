-- ===== src/Spinlock/Race.antt =====
-- What interleavings make of the lock of include/kernel/scheduler.h, whose test and store are two
-- memory accesses.
use svetos_kernel.Base.{ℕ, ◌≡◌, ◌≢◌, refl, [], ◌∷◌, sym, ◌∙◌}
use svetos_kernel.Spinlock.{spinning, passed, critical, State, place, run}
use svetos_kernel.Spinlock.Threads.{step-free, step-passed, place-here, place-other}

-- Two threads that wait while the lock is free both get in, if each reads the lock before the other
-- one has stored to it.
pub run-race :
    (i j : ℕ) (s : State)
    → i ≢ j
    → s.lock ≡ 0
    → s.pc i ≡ spinning
    → s.pc j ≡ spinning
    → let t = run (i ∷ j ∷ i ∷ j ∷ []) s in (t.pc i ≡ critical) × (t.pc j ≡ critical) × (t.lock ≡ 1)
unfolding run
run-race i j s ne free ei ej =
    let pc1 = place i passed s.pc in
    let pc2 = place j passed pc1 in
    let pc3 = place i critical pc2 in
    let ne' : j ≢ i = λ e. ne (sym e) in
    let s1 = step-free i s ei free in
    let s2 =
      step-free j (record { lock = s.lock; pc = pc1 }) (place-other i j passed s.pc ne' ∙ ej)
        free in
    let s3 =
      step-passed i (record { lock = s.lock; pc = pc2 })
        (place-other j i passed pc1 ne ∙ place-here i passed s.pc) in
    let s4 =
      step-passed j (record { lock = 1; pc = pc3 })
        (place-other i j critical pc2 ne' ∙ place-here j passed pc1) in
    rw (s1, s2, s3, s4)
      (place-other j i critical pc3 ne ∙ place-here i critical pc2, place-here j critical pc3, refl)
