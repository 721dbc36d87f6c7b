-- ===== src/Sandbox/Altered.antt =====
-- A table of kernel/src/sandbox/sandbox.c in which one sandbox has other capabilities.
use svetos_kernel.Base.{
  ℕ, ◌<◌, ◌≡◌, ◌⊎◌, inl, inr, refl, true, false, none, some, List, ◌==◌, get_or, set, ap, sym,
  subst, ◌∙◌, get_or-set_self, get_or-set_ne, Bool-cases, Option-cases, arith,
}
use svetos_kernel.Base.Int.{ℤ, pos, negsuc}
use svetos_kernel.Base.Bits.{test_bit}
use svetos_kernel.Allocator.{Allocator}
use svetos_kernel.Sandbox.{Slot, blank, lookup, Sandboxes}
use svetos_kernel.Sandbox.Inv.{IsSandboxes, set-IsSandboxes}
use svetos_kernel.Sandbox.Create.{count_at}

-- An id that the code accepts is that of a slot in use.
pub lookup-cases :
    (slots : List Slot) (sandbox_id : ℤ)
    → (lookup slots sandbox_id ≡ none)
      ⊎ ((k : ℕ) × (sandbox_id ≡ pos k)
          × (lookup slots sandbox_id ≡ some k)
          × (k < 32)
          × ((get_or slots k blank).used ≡ true))
unfolding lookup
lookup-cases slots (pos k) = elim (Option-cases (lookup slots (pos k))) [
  | inl out ↦ inl out
  | inr (n, found) ↦
      let same : n ≡ k = ground arith in inr (k, refl, ground arith, ground arith, ground arith)
]
lookup-cases slots (negsuc k) = inl refl

module _ (A : Allocator) where
  -- If the sandbox `i` is in use, it does not hold the capability `b`.
  abbrev pub Lacks : ℕ → ℕ → Sandboxes A → Type 0
  Lacks i b s =
      (get_or s.slots i blank).used ≡ true
      → test_bit (get_or s.slots i blank).capabilities b ≡ false

  module _ (s : Sandboxes A) (v : IsSandboxes A s) (k : ℕ) (lt : k < 32)
      (u : (get_or s.slots k blank).used ≡ true) (caps : ℕ) where
    abbrev pub changed : Slot
    changed = record (get_or s.slots k blank) { capabilities = caps }

    abbrev pub altered : Sandboxes A
    altered = record s { slots = set s.slots k changed }

    pub altered-IsSandboxes : IsSandboxes A altered
    altered-IsSandboxes =
        let counted = count_at A s v k changed lt in
        set-IsSandboxes A s k changed s.heap v
          (record {
            inside = lt;
            inv = v.inv;
            numbered = v.numbered k;
            owned = v.owned k;
            kept = λ j ne w. v.owned j w;
            other = λ j ne w w' same. ne (v.apart k j w w' (sym same));
          })
          s.count (omega (arith, counted))

    pub altered-Lacks :
        (i b : ℕ) → (k ≡ i → test_bit caps b ≡ false) → Lacks i b s → Lacks i b altered
    altered-Lacks i b clear lacks = elim (Bool-cases (k == i)) [
      | inl hit ↦
          let same : k ≡ i = ground arith in
          let here = get_or-set_self s.slots k changed blank (omega (arith, v.long, lt)) in
          λ w.
            subst (λ z. test_bit (get_or (set s.slots k changed) z blank).capabilities b ≡ false)
              same (ap (λ (y : Slot). test_bit y.capabilities b) here ∙ clear same)
      | inr miss ↦
          let there = get_or-set_ne s.slots k i changed blank (ground arith) in rw there lacks
    ]
