-- ===== src/Stubs/Same.antt =====
-- The byte routines of modules/module_stubs.c do what those of kernel/src/string.c do.
use mathlib.Core.Option
use svetos_kernel.Base.{
  ℕ, zero, suc, ◌+◌, ◌≡◌, refl, none, some, inl, inr, Option-cases, Bool-cases, ◌==◌, ap, ◌∙◌,
  arith,
}
use svetos_kernel.Strings as Kernel
use svetos_kernel.Strings.{Bytes, write}
use svetos_kernel.Stubs.{length_from, strlen, strcpy, memcpy}

length_from-eq :
    (fuel len str : ℕ) (mem : Bytes)
    → length_from fuel len str mem ≡ Option.map (λ n. len + n) (Kernel.strlen fuel (str + len) mem)
unfolding length_from Kernel.strlen
length_from-eq zero len str mem = refl
length_from-eq (suc fuel) len str mem = elim (Bool-cases (mem (str + len) == 0)) [
  | inl stop ↦ rw stop (ap some (omega arith))
  | inr more ↦
      let at : str + len + 1 ≡ str + (len + 1) = omega arith in
      rw (more, at)
        (elim (Option-cases (Kernel.strlen fuel (str + (len + 1)) mem)) [
          | inl cut ↦ rw cut (length_from-eq fuel (len + 1) str mem ∙ rw cut refl)
          | inr (n, found) ↦
              rw found (length_from-eq fuel (len + 1) str mem ∙ rw found (ap some (omega arith)))
        ])
]

from_zero : (o : Option.Option ℕ) → Option.map (λ n. 0 + n) o ≡ o
from_zero none = refl
from_zero (some n) = ap some (omega arith)

strcpy-eq :
    (fuel dest src : ℕ) (mem : Bytes) → strcpy fuel dest src mem ≡ Kernel.strcpy fuel dest src mem
unfolding strcpy Kernel.strcpy
strcpy-eq zero dest src mem = refl
strcpy-eq (suc fuel) dest src mem = elim (Bool-cases (mem src == 0)) [
  | inl stop ↦
      let last : mem src ≡ 0 = ground arith in rw stop (ap (λ v. some (write mem dest v)) last)
  | inr more ↦ rw more (strcpy-eq fuel (dest + 1) (src + 1) (write mem dest (mem src)))
]

memcpy-eq : (n dest src : ℕ) (mem : Bytes) → memcpy dest src n mem ≡ Kernel.memcpy dest src n mem
unfolding memcpy Kernel.memcpy
memcpy-eq zero dest src mem = refl
memcpy-eq (suc n) dest src mem = memcpy-eq n (dest + 1) (src + 1) (write mem dest (mem src))

-- For every memory, every pointer and the same number of rounds, the `strlen`, `strcpy` and
-- `memcpy` that a module links with give what the kernel's give, and are cut off where those are.
pub stubs-same :
    (fuel n dest src : ℕ) (mem : Bytes)
    → (strlen fuel src mem ≡ Kernel.strlen fuel src mem)
      × (strcpy fuel dest src mem ≡ Kernel.strcpy fuel dest src mem)
      × (memcpy dest src n mem ≡ Kernel.memcpy dest src n mem)
unfolding strlen
stubs-same fuel n dest src mem = (
  length_from-eq fuel 0 src mem
      ∙ ap (λ s. Option.map (λ n. 0 + n) (Kernel.strlen fuel s mem)) (omega arith)
      ∙ from_zero (Kernel.strlen fuel src mem),
  strcpy-eq fuel dest src mem,
  memcpy-eq n dest src mem,
)
