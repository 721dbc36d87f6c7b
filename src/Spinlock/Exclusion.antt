-- ===== src/Spinlock/Exclusion.antt =====
-- What the lock of include/kernel/scheduler.h guarantees where nothing interrupts a thread between
-- its successful test and its store, as on one processor with interrupts off.
use svetos_kernel.Base.{
  ℕ, ◌≡◌, ◌≢◌, inl, inr, refl, ◌==◌, sym, ◌∙◌, arith, Bool-cases, if◌then◌else◌,
}
use svetos_kernel.Spinlock.{
  Pc, outside, spinning, passed, critical, State, place, is_passed, step, turn, start,
}
use svetos_kernel.Spinlock.Threads.{
  Reach, here, Pc-cases, next, place-here, place-other, step-outside, step-free, step-held,
  step-passed, step-critical,
}

-- The lock is set exactly while a thread is inside, and then there is only one.
pub record IsExclusive (s : State) : Type 0 where
  pub through : (i : ℕ) → s.pc i ≢ passed
  pub alone : (i j : ℕ) → s.pc i ≡ critical → s.pc j ≡ critical → i ≡ j
  pub held : (i : ℕ) → s.pc i ≡ critical → s.lock ≡ 1
  pub used : s.lock ≢ 0 → (i : ℕ) × (s.pc i ≡ critical)

turn-shut : (i : ℕ) (s t : State) → step i s ≡ t → t.pc i ≢ passed → turn i s ≡ t
unfolding turn
turn-shut i s t e ne = rw e (shut (t.pc i) ne)
  where
    shut : (p : Pc) → p ≢ passed → (if is_passed p then step i t else t) ≡ t
    shut outside ne = refl
    shut spinning ne = refl
    shut passed ne = absurd (ne refl)
    shut critical ne = refl

turn-free :
    (i : ℕ) (s : State)
    → s.pc i ≡ spinning
    → s.lock ≡ 0
    → turn i s ≡ record { lock = 1; pc = place i critical (place i passed s.pc) }
unfolding turn
turn-free i s e free =
    let at = place-here i passed s.pc in
    rw (step-free i s e free, at)
      (step-passed i (record { lock = s.lock; pc = place i passed s.pc }) at)

place-back : (i k : ℕ) (p q : Pc) (pc : ℕ → Pc) → p ≢ q → place i p pc k ≡ q → (k ≢ i) × (pc k ≡ q)
place-back i k p q pc ne e = ground arith

-- A thread that is not inside starts to wait.
waits :
    (i : ℕ) (s : State)
    → IsExclusive s
    → s.pc i ≡ outside
    → IsExclusive (record { lock = s.lock; pc = place i spinning s.pc })
waits i s v e = record {
  through = λ k h. v.through k (place-back i k spinning passed s.pc (λ x. cc) h).1;
  alone = λ j k hj hk.
      v.alone j k (place-back i j spinning critical s.pc (λ x. cc) hj).1
        (place-back i k spinning critical s.pc (λ x. cc) hk).1;
  held = λ k h. v.held k (place-back i k spinning critical s.pc (λ x. cc) h).1;
  used = λ h. let (k, at) = v.used h in (k, place-other i k spinning s.pc (λ (x : k ≡ i). cc) ∙ at);
}

-- A thread enters where the lock was free, so nobody was inside.
enters :
    (i : ℕ) (s : State)
    → IsExclusive s
    → s.lock ≡ 0
    → IsExclusive (record { lock = 1; pc = place i critical (place i passed s.pc) })
enters i s v free =
    let empty : (k : ℕ) → s.pc k ≢ critical = λ k h. omega (arith, v.held k h) in
    let only : (k : ℕ) → place i critical (place i passed s.pc) k ≡ critical → k ≡ i = λ k h.
      elim (Bool-cases (k == i)) [
        | inl same ↦ ground arith
        | inr other ↦ absurd (empty k (ground arith))
      ] in
    record {
      through = λ k h. v.through k (ground arith);
      alone = λ j k hj hk. only j hj ∙ sym (only k hk);
      held = λ k h. refl;
      used = λ h. (i, place-here i critical (place i passed s.pc));
    }

leaves :
    (i : ℕ) (s : State)
    → IsExclusive s
    → s.pc i ≡ critical
    → IsExclusive (record { lock = 0; pc = place i outside s.pc })
leaves i s v e =
    let empty : (k : ℕ) → place i outside s.pc k ≢ critical = λ k h.
      let (ne, at) = place-back i k outside critical s.pc (λ x. cc) h in ne (v.alone k i at e) in
    record {
      through = λ k h. v.through k (place-back i k outside passed s.pc (λ x. cc) h).1;
      alone = λ j k hj hk. absurd (empty j hj);
      held = λ k h. absurd (empty k h);
      used = λ h. absurd (h refl);
    }

turn-IsExclusive : (i : ℕ) (s : State) → IsExclusive s → IsExclusive (turn i s)
turn-IsExclusive i s v = elim (Pc-cases (s.pc i)) [
  | inl e ↦
      let t : State = record { lock = s.lock; pc = place i spinning s.pc } in
      let w = waits i s v e in rw (turn-shut i s t (step-outside i s e) (w.through i)) w
  | inr (inl e) ↦ elim (Bool-cases (s.lock == 0)) [
    | inl free ↦ rw (turn-free i s e (ground arith)) (enters i s v (ground arith))
    | inr set ↦ rw (turn-shut i s s (step-held i s e (ground arith)) (v.through i)) v
  ]
  | inr (inr (inl e)) ↦ absurd (v.through i e)
  | inr (inr (inr e)) ↦
      let t : State = record { lock = 0; pc = place i outside s.pc } in
      let w = leaves i s v e in rw (turn-shut i s t (step-critical i s e) (w.through i)) w
]

start-IsExclusive : IsExclusive start
start-IsExclusive = record {
  through = λ i e. cc;
  alone = λ i j hi hj. cc;
  held = λ i e. cc;
  used = λ h. absurd (h refl);
}

-- From the start, whatever the order of the turns, at most one thread is inside, and the lock is
-- set exactly when one is; for turns in which a successful test and the store are not interrupted.
pub Reach-IsExclusive : (s : State) → Reach turn start s → IsExclusive s
Reach-IsExclusive s here = start-IsExclusive
Reach-IsExclusive s (next r i) = turn-IsExclusive i _ (Reach-IsExclusive _ r)
