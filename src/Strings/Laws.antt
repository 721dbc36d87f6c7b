-- ===== src/Strings/Laws.antt =====
-- What the routines of kernel/src/string.c leave in memory.
use svetos_kernel.Base.{
  ℕ, zero, suc, ◌+◌, ◌%◌, ◌≤◌, ◌<◌, ◌≡◌, ◌≢◌, ◌⊎◌, inl, refl, false, some, ◌==◌, ap, sym, ◌∙◌,
  subst, arith,
}
use svetos_kernel.Strings.{Bytes, write, memcpy, memset, strcpy, strlen}

-- `n` bytes from `p` and `n` bytes from `q` have no address in common, or `q` lies behind `p`.
abbrev pub Forward : ℕ → ℕ → ℕ → Type 0
Forward dest src n = (dest ≤ src) ⊎ (src + n ≤ dest)

memcpy-below :
    (n dest src : ℕ) (mem : Bytes) (a : ℕ)
    → (a < dest) ⊎ (dest + n ≤ a)
    → memcpy dest src n mem a ≡ mem a
unfolding memcpy
memcpy-below zero dest src mem a out = refl
memcpy-below (suc n) dest src mem a out =
    ground (arith, memcpy-below n (dest + 1) (src + 1) (write mem dest (mem src)) a (ground arith))

memcpy-moved :
    (n dest src : ℕ) (mem : Bytes)
    → Forward dest src n
    → (i : ℕ) → i < n
    → memcpy dest src n mem (dest + i) ≡ mem (src + i)
unfolding memcpy
memcpy-moved zero dest src mem f i lt = absurd (omega arith)
memcpy-moved (suc n) dest src mem f zero lt =
    ground (
      arith,
      memcpy-below n (dest + 1) (src + 1) (write mem dest (mem src)) dest (inl (omega arith)),
    )
memcpy-moved (suc n) dest src mem f (suc i) lt =
    let next =
      memcpy-moved n (dest + 1) (src + 1) (write mem dest (mem src)) (ground arith) i
        (omega arith) in
    let here : dest + 1 + i ≡ dest + suc i = omega arith in
    let there : src + 1 + i ≡ src + suc i = omega arith in
    let moved = rw (here, there) at next in ground (arith, moved)

-- `memcpy` to an address below the source, or to memory apart from it, leaves the source's bytes at
-- the destination and every other byte as it was.
pub memcpy-copies :
    (n dest src : ℕ) (mem : Bytes)
    → Forward dest src n
    → ((i : ℕ) → i < n → memcpy dest src n mem (dest + i) ≡ mem (src + i))
      × ((a : ℕ) → (a < dest) ⊎ (dest + n ≤ a) → memcpy dest src n mem a ≡ mem a)
unfolding memcpy
memcpy-copies n dest src mem f = (memcpy-moved n dest src mem f, memcpy-below n dest src mem)

memset-outside :
    (n s c : ℕ) (mem : Bytes) (a : ℕ) → (a < s) ⊎ (s + n ≤ a) → memset s c n mem a ≡ mem a
unfolding memset
memset-outside zero s c mem a out = refl
memset-outside (suc n) s c mem a out =
    ground (arith, memset-outside n (s + 1) c (write mem s (c % 256)) a (ground arith))

memset-filled : (n s c : ℕ) (mem : Bytes) (i : ℕ) → i < n → memset s c n mem (s + i) ≡ c % 256
unfolding memset
memset-filled zero s c mem i lt = absurd (omega arith)
memset-filled (suc n) s c mem zero lt =
    ground (arith, memset-outside n (s + 1) c (write mem s (c % 256)) s (inl (omega arith)))
memset-filled (suc n) s c mem (suc i) lt =
    let next = memset-filled n (s + 1) c (write mem s (c % 256)) i (omega arith) in
    let here : s + 1 + i ≡ s + suc i = omega arith in rw here at next

-- `memset` fills exactly the `n` bytes from `s` with the low byte of `c`.
pub memset-fills :
    (n s c : ℕ) (mem : Bytes)
    → ((i : ℕ) → i < n → memset s c n mem (s + i) ≡ c % 256)
      × ((a : ℕ) → (a < s) ⊎ (s + n ≤ a) → memset s c n mem a ≡ mem a)
memset-fills n s c mem = (memset-filled n s c mem, memset-outside n s c mem)

-- `n` bytes that are not zero from `s`, and then a zero
abbrev pub IsString : Bytes → ℕ → ℕ → Type 0
IsString mem s n = ((i : ℕ) → i < n → mem (s + i) ≢ 0) × (mem (s + n) ≡ 0)

-- `strlen` of a string of `n` characters returns `n`, given `n + 1` rounds.
pub strlen_lem :
    (n fuel s : ℕ) (mem : Bytes) → IsString mem s n → n < fuel → strlen fuel s mem ≡ some n
unfolding strlen
strlen_lem n zero s mem str lt = absurd (omega arith)
strlen_lem zero (suc fuel) s mem str lt = let e = str.1 in ground arith
strlen_lem (suc n) (suc fuel) s mem str lt =
    let ne = str.0 0 (omega arith) in
    let next =
      strlen_lem n fuel (s + 1) mem
        (
          λ i l. subst (λ a. mem a ≢ 0) (omega arith) (str.0 (suc i) (omega arith)),
          subst (λ a. mem a ≡ 0) (omega arith) str.1,
        )
        (omega arith) in
    let here : mem s ≢ 0 = subst (λ a. mem a ≢ 0) (omega arith) ne in ground (arith, next)

-- `strcpy` of a string of `n` characters to memory apart from it returns, given `n + 1` rounds, and
-- does what `memcpy` of its `n + 1` bytes does.
pub strcpy_lem :
    (n fuel dest src : ℕ) (mem : Bytes)
    → IsString mem src n
    → (dest + n < src) ⊎ (src + n < dest)
    → n < fuel
    → strcpy fuel dest src mem ≡ some (memcpy dest src (suc n) mem)
unfolding strcpy memcpy
strcpy_lem n zero dest src mem str out lt = absurd (omega arith)
strcpy_lem zero (suc fuel) dest src mem str out lt =
    let e : mem src ≡ 0 = subst (λ a. mem a ≡ 0) (omega arith) str.1 in rw e
strcpy_lem (suc n) (suc fuel) dest src mem str out lt =
    let here : mem src ≢ 0 = subst (λ a. mem a ≢ 0) (omega arith) (str.0 0 (omega arith)) in
    let miss : (mem src == 0) ≡ false = ground arith in
    let same : (i : ℕ) → i ≤ n → write mem dest (mem src) (src + 1 + i) ≡ mem (src + suc i) =
      λ i le.
        let off : src + 1 + i ≢ dest = ground arith in
        let shift : src + 1 + i ≡ src + suc i = omega arith in
        let miss' : (src + 1 + i == dest) ≡ false = ground arith in rw miss' (ap mem shift) in
    rw miss (
      strcpy_lem n fuel (dest + 1) (src + 1) (write mem dest (mem src))
        (
          λ i l e. str.0 (suc i) (omega arith) (sym (same i (omega arith)) ∙ e),
          same n (omega arith) ∙ str.1,
        )
        (ground arith) (omega arith))
