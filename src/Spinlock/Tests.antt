-- ===== src/Spinlock/Tests.antt =====
-- Three threads and their schedules.
use svetos_kernel.Base.{◌≡◌, refl, [], ◌∷◌, ◌==◌, if◌then◌else◌, arith}
use svetos_kernel.Spinlock.{spinning, critical, State, run, turn, start}
use svetos_kernel.Spinlock.Threads.{here, next}
use svetos_kernel.Spinlock.Race.{run-race}
use svetos_kernel.Spinlock.Exclusion.{IsExclusive, Reach-IsExclusive}

abbrev both_wait : State
both_wait = record { lock = 0; pc = λ i. spinning }

run-race_example :
    let t = run (4 ∷ 7 ∷ 4 ∷ 7 ∷ []) both_wait in
    (t.pc 4 ≡ critical) × (t.pc 7 ≡ critical) × (t.lock ≡ 1)
run-race_example = run-race 4 7 both_wait (λ e. omega arith) refl refl refl

-- thread 1 asks, enters and is overtaken by thread 2's question
Reach-IsExclusive_example : IsExclusive (turn 2 (turn 1 (turn 1 start)))
Reach-IsExclusive_example =
    Reach-IsExclusive (turn 2 (turn 1 (turn 1 start))) (next (next (next here 1) 1) 2)

abbrev zero_inside : State
zero_inside = record { lock = 1; pc = λ i. if i == 0 then critical else spinning }
