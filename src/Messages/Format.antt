-- ===== src/Messages/Format.antt =====
-- How much `vsnprintf` of kernel/src/printk.c writes.
use svetos_kernel.Base.{
  ℕ, zero, suc, ◌+◌, ◌-◌, ◌^◌, ◌≤◌, ◌<◌, ◌≡◌, ◌≢◌, ◌⊎◌, inl, inr, min, false, some, ltb, ◌==◌,
  sub32, ap, sym, ◌∙◌, subst, subst₂, Bool-cases, arith,
}
use svetos_kernel.Strings.{Bytes, write}
use svetos_kernel.Strings.Laws.{IsString}
use svetos_kernel.Messages.{format_from, vsnprintf}

-- `mem'` is `mem` with the `c` bytes from `src` copied to `dest`, and a zero behind them.
pub record IsFormatted (dest src c : ℕ) (mem mem' : Bytes) : Type 0 where
  pub copied : (j : ℕ) → j < c → mem' (dest + j) ≡ mem (src + j)
  pub ended : mem' (dest + c) ≡ 0
  pub others : (a : ℕ) → (a < dest) ⊎ (dest + c < a) → mem' a ≡ mem a

ends-IsFormatted : (dest src : ℕ) (mem : Bytes) → IsFormatted dest src 0 mem (write mem dest 0)
ends-IsFormatted dest src mem = record {
  copied = λ j lt. absurd (omega arith);
  ended = ground arith;
  others = λ a out. ground arith;
}

-- One more character in front, where the copy does not run into the bytes to be copied.
more-IsFormatted :
    (dest src c : ℕ) (mem mem' : Bytes)
    → (dest + c < src) ⊎ (src + c < dest)
    → IsFormatted (dest + 1) (src + 1) c (write mem dest (mem src)) mem'
    → IsFormatted dest src (suc c) mem mem'
more-IsFormatted dest src c mem mem' apart f = record {
  copied = λ j lt. elim (Bool-cases (j == 0)) [
    | inl first ↦
        let at : dest + j ≡ dest = ground arith in
        let at' : src + j ≡ src = ground arith in
        rw (at, at') (f.others dest (inl (omega arith)) ∙ ground arith)
    | inr later ↦
        let at : dest + 1 + (j - 1) ≡ dest + j = ground arith in
        let at' : src + 1 + (j - 1) ≡ src + j = ground arith in
        let here = rw (at, at') at (f.copied (j - 1) (ground arith)) in here ∙ ground arith
  ];
  ended = ap mem' (omega arith) ∙ f.ended;
  others = λ a out. f.others a (ground arith) ∙ ground arith;
}

-- The loop copies as many of the `k` characters that are left as there is room for.
format_from-IsFormatted :
    (k fuel str size format i : ℕ) (mem : Bytes)
    → IsString mem (format + i) k
    → (str + i + k < format + i) ⊎ (format + i + k < str + i)
    → k < fuel
    → i ≤ sub32 size 1
    → let c = min k (sub32 size 1 - i) in
      (mem' : Bytes) × (format_from fuel str size format i mem ≡ some (i + c, mem'))
      × IsFormatted (str + i) (format + i) c mem mem'
unfolding format_from
format_from-IsFormatted k zero str size format i mem s apart lt le = absurd (omega arith)
format_from-IsFormatted zero (suc fuel) str size format i mem s apart lt le =
    let e : mem (format + i) ≡ 0 = subst (λ a. mem a ≡ 0) (omega arith) s.1 in
    let none_left : min 0 (sub32 size 1 - i) ≡ 0 = omega arith in
    (
      write mem (str + i) 0,
      rw none_left (ground arith),
      rw none_left (ends-IsFormatted (str + i) (format + i) mem),
    )
format_from-IsFormatted (suc k) (suc fuel) str size format i mem s apart lt le =
    elim (Bool-cases (ltb i (sub32 size 1))) [
      | inl room ↦
          let here : mem (format + i) ≢ 0 =
            subst (λ a. mem a ≢ 0) (omega arith) (s.0 0 (omega arith)) in
          let miss : (mem (format + i) == 0) ≡ false = ground arith in
          let one_more : min (suc k) (sub32 size 1 - i) ≡ suc (min k (sub32 size 1 - (i + 1))) =
            ground arith in
          let mem1 = write mem (str + i) (mem (format + i)) in
          let same : (j : ℕ) → j ≤ k → mem1 (format + (i + 1) + j) ≡ mem (format + i + suc j) =
            λ j l.
              let off : (format + (i + 1) + j == str + i) ≡ false = ground arith in
              let at : format + (i + 1) + j ≡ format + i + suc j = omega arith in
              rw off (ap mem at) in
          let (mem', ran, f) =
            format_from-IsFormatted k fuel str size format (i + 1) mem1
              (
                λ j l e. s.0 (suc j) (omega arith) (sym (same j (omega arith)) ∙ e),
                same k (omega arith) ∙ s.1,
              )
              (ground arith) (omega arith) (ground arith) in
          let c = min k (sub32 size 1 - (i + 1)) in
          let count : i + 1 + c ≡ i + min (suc k) (sub32 size 1 - i) = omega (arith, one_more) in
          let to : str + (i + 1) ≡ str + i + 1 = omega arith in
          let from : format + (i + 1) ≡ format + i + 1 = omega arith in
          let f' = subst₂ (λ d t. IsFormatted d t c mem1 mem') to from f in
          (
            mem',
            rw (room, miss) (ran ∙ ap (λ n. some (n, mem')) count),
            subst (λ n. IsFormatted (str + i) (format + i) n mem mem') (sym one_more)
                (more-IsFormatted (str + i) (format + i) c mem mem' (ground arith) f'),
          )
      | inr full ↦
          let none_left : min (suc k) (sub32 size 1 - i) ≡ 0 = ground arith in
          (
            write mem (str + i) 0,
            rw (none_left, full) (ground arith),
            rw none_left (ends-IsFormatted (str + i) (format + i) mem),
          )
    ]

-- `vsnprintf` of a string of `n` characters to memory apart from it returns, given `n + 1` rounds.
-- It writes the first `c` characters and a zero and nothing else, and returns `c`, which is the
-- smaller one of `n` and of `size - 1`. So it stays within a buffer of `size` bytes; but `size` 0
-- wraps, and then the whole string is written, if shorter than 2 ^ 32.
pub vsnprintf_lem :
    (n fuel str size format : ℕ) (mem : Bytes)
    → IsString mem format n
    → (str + n < format) ⊎ (format + n < str)
    → n < fuel
    → size < 2 ^ 32
    → (c : ℕ) × (mem' : Bytes) × (vsnprintf fuel str size format mem ≡ some (c, mem'))
      × IsFormatted str format c mem mem'
      × (0 < size → c ≡ min n (size - 1))
      × (size ≡ 0 → n < 2 ^ 32 → c ≡ n)
unfolding vsnprintf
vsnprintf_lem n fuel str size format mem s apart lt small =
    let at : format + 0 ≡ format = omega arith in
    let to : str + 0 ≡ str = omega arith in
    let c = min n (sub32 size 1 - 0) in
    let (mem', ran, f) =
      format_from-IsFormatted n fuel str size format 0 mem
        (subst (λ a. IsString mem a n) (sym at) s) (ground arith) lt (omega arith) in
    (
      c,
      mem',
      ran ∙ ap (λ k. some (k, mem')) (omega arith),
      subst₂ (λ d t. IsFormatted d t c mem mem') to at f,
      λ pos. ground arith,
      λ zero_size short. ground arith,
    )
