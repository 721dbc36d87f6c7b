-- ===== src/Sandbox/Escalation.antt =====
-- What any sequence of calls of kernel/src/sandbox/sandbox.c can do for a sandbox's capabilities.
use svetos_kernel.Base.{
  ℕ, ◌^◌, ◌+◌, ◌<◌, ◌≡◌, inl, inr, refl, true, false, some, List, [], ◌∷◌, ◌==◌, bit_and, bit_or,
  not32, get_or, ap, sym, subst, ◌∙◌, Bool-cases, arith,
}
use svetos_kernel.Base.Int.{ℤ, pos}
use svetos_kernel.Base.Bits.{test_bit, test_bit-bit_and, test_bit-bit_or, test_bit-zero}
use svetos_kernel.Allocator.{Allocator}
use svetos_kernel.Sandbox.{
  Slot, blank, check_permission, grant_capability, revoke_capability, Sandboxes, sandbox_destroy,
}
use svetos_kernel.Sandbox.Calls.{Call, creates, destroys, allocates, grants, revokes, perform, run}
use svetos_kernel.Sandbox.Inv.{IsSandboxes}
use svetos_kernel.Sandbox.Altered.{lookup-cases, Lacks, altered, altered-IsSandboxes, altered-Lacks}
use svetos_kernel.Sandbox.Create.{Created, sandbox_create_lem}
use svetos_kernel.Sandbox.Permission.{IsUsed, check_permission_iff, check_permission_unused}
use svetos_kernel.Sandbox.Memory.{sandbox_destroy_lem, sandbox_alloc_lem}

-- The call does not grant the capability `b` to the sandbox `i`, nor ask for a size that wraps.
abbrev pub Spares : ℕ → ℕ → Call → Type 0
Spares i b creates = Unit
Spares i b (destroys sandbox_id) = Unit
Spares i b (allocates sandbox_id size) = size + 7 < 2 ^ 32
Spares i b (grants sandbox_id capability) = sandbox_id ≡ pos i → test_bit capability b ≡ false
Spares i b (revokes sandbox_id capability) = Unit

abbrev pub AllSpare : ℕ → ℕ → List Call → Type 0
AllSpare i b [] = Unit
AllSpare i b (c ∷ cs) = Spares i b c × AllSpare i b cs

module _ (A : Allocator) where
  abbrev Keeps : ℕ → ℕ → Call → Sandboxes A → Type 0
  Keeps i b c s = (s' : Sandboxes A) × (perform A c s ≡ some s') × IsSandboxes A s' × Lacks A i b s'

  module _ (i b : ℕ) (s : Sandboxes A) (v : IsSandboxes A s) (lacks : Lacks A i b s) where
    creates-Keeps : Keeps i b creates s
    unfolding perform Created
    creates-Keeps =
        let (s', v', out) = sandbox_create_lem A s v in
        elim out [
          | inl (k, ran, c) ↦ (
            s',
            rw ran refl,
            v',
            elim (Bool-cases (k == i)) [
              | inl hit ↦
                  let same : k ≡ i = ground arith in
                  λ w.
                    subst (λ z. test_bit (get_or s'.slots z blank).capabilities b ≡ false) same
                      (ap (λ n. test_bit n b) c.powerless ∙ test_bit-zero b)
              | inr miss ↦ let there = c.others i (ground arith) in rw there lacks
            ],
          )
          | inr (ran, r) ↦ (
            s',
            rw ran refl,
            v',
            λ w.
                let busy = sym (r.same i) ∙ w in
                ap (λ (y : Slot). test_bit y.capabilities b) (r.kept i busy) ∙ lacks busy,
          )
        ]

    destroys-Keeps : (sandbox_id : ℤ) → Keeps i b (destroys sandbox_id) s
    unfolding perform sandbox_destroy
    destroys-Keeps sandbox_id = elim (lookup-cases s.slots sandbox_id) [
      | inl out ↦ (s, rw out refl, v, lacks)
      | inr (k, e, found, lt, u) ↦
          let (s', ran, v', gone, counted, free, others) =
            sandbox_destroy_lem A s v k
              (record { small = lt; inside = omega (arith, v.long, lt); used = u }) in
          (
            s',
            rw e (rw ran refl),
            v',
            elim (Bool-cases (k == i)) [
              | inl hit ↦
                  let same : k ≡ i = ground arith in
                  λ w.
                    absurd (
                      ground (arith, subst (λ z. (get_or s'.slots z blank).used ≡ false) same gone))
              | inr miss ↦ let there = others i (ground arith) in rw there lacks
            ],
          )
    ]

    allocates-Keeps :
        (sandbox_id : ℤ) (size : ℕ) → size + 7 < 2 ^ 32 → Keeps i b (allocates sandbox_id size) s
    unfolding perform
    allocates-Keeps sandbox_id size small =
        let (p, s', ran, v', same, out) = sandbox_alloc_lem A s v sandbox_id size small in
        (s', rw ran refl, v', rw same lacks)

    grants-Keeps :
        (sandbox_id : ℤ) (capability : ℕ)
        → (sandbox_id ≡ pos i → test_bit capability b ≡ false)
        → Keeps i b (grants sandbox_id capability) s
    unfolding perform grant_capability
    grants-Keeps sandbox_id capability spares = elim (lookup-cases s.slots sandbox_id) [
      | inl out ↦ (s, rw out refl, v, lacks)
      | inr (k, e, found, lt, u) ↦
          let held = (get_or s.slots k blank).capabilities in
          let caps = bit_or held capability in
          (
            altered A s v k lt u caps,
            rw found refl,
            altered-IsSandboxes A s v k lt u caps,
            altered-Lacks A s v k lt u caps i b
                (λ same.
                  let old : test_bit held b ≡ false =
                    subst
                      (λ z.
                        (get_or s.slots z blank).used ≡ true
                        → test_bit (get_or s.slots z blank).capabilities b ≡ false)
                      (sym same) lacks u in
                  let new = spares (e ∙ ap pos same) in
                  ground (arith, test_bit-bit_or b held capability, old, new))
                lacks,
          )
    ]

    revokes-Keeps : (sandbox_id : ℤ) (capability : ℕ) → Keeps i b (revokes sandbox_id capability) s
    unfolding perform revoke_capability
    revokes-Keeps sandbox_id capability = elim (lookup-cases s.slots sandbox_id) [
      | inl out ↦ (s, rw out refl, v, lacks)
      | inr (k, e, found, lt, u) ↦
          let held = (get_or s.slots k blank).capabilities in
          let caps = bit_and held (not32 capability) in
          (
            altered A s v k lt u caps,
            rw found refl,
            altered-IsSandboxes A s v k lt u caps,
            altered-Lacks A s v k lt u caps i b
                (λ same.
                  let old : test_bit held b ≡ false =
                    subst
                      (λ z.
                        (get_or s.slots z blank).used ≡ true
                        → test_bit (get_or s.slots z blank).capabilities b ≡ false)
                      (sym same) lacks u in
                  ground (arith, test_bit-bit_and b held (not32 capability), old))
                lacks,
          )
    ]

    perform-Keeps : (c : Call) → Spares i b c → Keeps i b c s
    perform-Keeps creates spares = creates-Keeps
    perform-Keeps (destroys sandbox_id) spares = destroys-Keeps sandbox_id
    perform-Keeps (allocates sandbox_id size) spares = allocates-Keeps sandbox_id size spares
    perform-Keeps (grants sandbox_id capability) spares = grants-Keeps sandbox_id capability spares
    perform-Keeps (revokes sandbox_id capability) spares = revokes-Keeps sandbox_id capability

  run-Keeps :
      (i b : ℕ) (cs : List Call) (s : Sandboxes A)
      → IsSandboxes A s
      → Lacks A i b s
      → AllSpare i b cs
      → (s' : Sandboxes A) × (run A cs s ≡ some s') × IsSandboxes A s' × Lacks A i b s'
  unfolding run
  run-Keeps i b [] s v lacks spares = (s, refl, v, lacks)
  run-Keeps i b (c ∷ cs) s v lacks spares =
      let (s₁, ran, v₁, lacks₁) = perform-Keeps i b s v lacks c spares.0 in
      let (s', ran', v', lacks') = run-Keeps i b cs s₁ v₁ lacks₁ spares.1 in
      (s', rw (ran, ran') refl, v', lacks')

  -- On a well-formed table where the sandbox `i` is free or lacks the capability `b`, every sequence
  -- of calls that creates and destroys sandboxes, allocates (sizes up to 2 ^ 32 - 8), grants and
  -- revokes, with any ids, but grants `b` nowhere to `i`, runs to its end and keeps the table
  -- well-formed. Afterwards every check of `i` for words with the bit `b` fails.
  pub run-denies :
      (i b : ℕ) (cs : List Call) (s : Sandboxes A)
      → IsSandboxes A s
      → Lacks A i b s
      → AllSpare i b cs
      → (s' : Sandboxes A) × (run A cs s ≡ some s')
        × IsSandboxes A s'
        × ((req : ℕ) → test_bit req b ≡ true → check_permission s'.slots (pos i) req ≡ false)
  run-denies i b cs s v lacks spares =
      let (s', ran, v', lacks') = run-Keeps i b cs s v lacks spares in
      (s', ran, v', denied s' v' lacks')
    where
      denied :
          (s' : Sandboxes A)
          → IsSandboxes A s'
          → Lacks A i b s'
          → (req : ℕ) → test_bit req b ≡ true
          → check_permission s'.slots (pos i) req ≡ false
      denied s' v' lacks' req asked = elim (lookup-cases s'.slots (pos i)) [
        | inl out ↦ check_permission_unused s'.slots (pos i) req out
        | inr (k, e, found, lt, u) ↦
            let same : i ≡ k = ground arith in
            let busy : (get_or s'.slots i blank).used ≡ true = rw same u in
            let is_used : IsUsed s'.slots i = record {
              small = rw same lt;
              inside = rw same (omega (arith, v'.long, lt));
              used = busy;
            } in
            elim (Bool-cases (check_permission s'.slots (pos i) req)) [
              | inl passes ↦
                  let held = (check_permission_iff s'.slots i req is_used).0 passes b asked in
                  absurd (ground (arith, lacks' busy))
              | inr fails ↦ fails
            ]
      ]
