-- ===== src/Pic/Mask.antt =====
-- Which interrupt lines kernel/src/interrupts/pic.c leaves masked.
use native.Mathlib.Nat.{pow-le-pow_right}
use svetos_kernel.Base.{
  ℕ, ◌-◌, ◌*◌, ◌^◌, ◌≤◌, ◌<◌, ◌≡◌, ◌≢◌, inl, inr, refl, Bool, true, false, ◌&&◌, ◌||◌, not, ltb,
  ◌==◌, if◌then◌else◌, bit_and, bit_or, not32, u8, ◌<<<◌, Bool-cases, ==_iff, ap, ap₂, sym, ◌∙◌,
  arith,
}
use svetos_kernel.Base.Bits.{
  test_bit-zero, test_bit-u8, test_bit-pow, test_bit, test_bit-bit_and, test_bit-bit_or,
  test_bit-not,
}
use svetos_kernel.Ports.{Ports}
use svetos_kernel.Pic.{
  pic1_data, pic2_data, data_port, line_within, icw, pic_remap, pic_set_mask, pic_clear_mask,
}
use svetos_kernel.Pic.Device.{IsData, PicDevice}

pub data_port-IsData : (line : ℕ) → IsData (data_port line)
data_port-IsData line = ground arith

or_comm : (a b : Bool) → (a || b) ≡ (b || a)
or_comm a b = ground arith

and_comm : (a b : Bool) → (a && b) ≡ (b && a)
and_comm a b = ground arith

module _ (P : Ports) (D : PicDevice P) where
  -- line `i` is masked
  abbrev pub masked : ℕ → P.State → Bool
  masked i s = test_bit (D.mask (data_port i) s) (line_within i)

  within_small : (i : ℕ) → i < 16 → line_within i < 8
  within_small i lt = ground arith

  masked_after :
      (line v : ℕ) (s : P.State)
      → D.Ready s
      → v < 256
      → (i : ℕ)
      → masked i (P.outb (data_port line) v s)
        ≡ (if data_port i == data_port line then test_bit v (line_within i) else masked i s)
  masked_after line v s r small i = elim (Bool-cases (data_port i == data_port line)) [
    | inl hit ↦
        let same : data_port i ≡ data_port line = (==_iff (data_port i) (data_port line)).0 hit in
        rw hit (
          ap (λ q. test_bit (D.mask q (P.outb (data_port line) v s)) (line_within i)) same
          ∙ ap (λ w. test_bit w (line_within i))
              (D.outb_mask (data_port line) v s (data_port-IsData line) r small))
    | inr miss ↦
        let ne : data_port line ≢ data_port i =
          λ e. absurd (ground (arith, (==_iff (data_port i) (data_port line)).1 (sym e))) in
        rw miss (
          ap (λ w. test_bit w (line_within i))
            (D.outb_other (data_port line) (data_port i) v s (data_port-IsData line)
              (data_port-IsData i) ne r))
  ]

  -- Two lines are the same when they share port and place.
  line_eq :
      (i line : ℕ)
      → i < 16
      → line < 16
      → (i == line) ≡ (data_port i == data_port line && line_within i == line_within line)
  line_eq i line lt lt' = ground arith

  pic_set_mask-eq :
      (line : ℕ) (s : P.State)
      → D.Ready s
      → pic_set_mask P line s
        ≡ P.outb
            (data_port line)
            (u8 (bit_or (D.mask (data_port line) s) (1 <<< line_within line)))
            s
  unfolding pic_set_mask
  pic_set_mask-eq line s r =
      ap (λ (v, s'). P.outb (data_port line) (u8 (bit_or v (1 <<< line_within line))) s')
        (D.inb_mask (data_port line) s (data_port-IsData line) r)

  pic_clear_mask-eq :
      (line : ℕ) (s : P.State)
      → D.Ready s
      → pic_clear_mask P line s
        ≡ P.outb
            (data_port line)
            (u8 (bit_and (D.mask (data_port line) s) (not32 (1 <<< line_within line))))
            s
  unfolding pic_clear_mask
  pic_clear_mask-eq line s r =
      ap (λ (v, s'). P.outb (data_port line) (u8 (bit_and v (not32 (1 <<< line_within line)))) s')
        (D.inb_mask (data_port line) s (data_port-IsData line) r)

  bit_small : (k : ℕ) → k < 8 → 1 * 2 ^ k < 2 ^ 32
  bit_small k lt =
      let le : 2 ^ k ≤ 2 ^ 8 = pow-le-pow_right (omega arith) {j = 8} (omega arith) in omega arith

  -- What a write to the port of `line` makes of line `i`, where `f` tells for the line itself.
  combine :
      (f : Bool → Bool → Bool) (line i : ℕ) (s : P.State) (v : Bool)
      → ((m : Bool) → f false m ≡ m)
      → i < 16
      → line < 16
      → v
        ≡ f
            (line_within i == line_within line)
            (test_bit (D.mask (data_port line) s) (line_within i))
      → (if data_port i == data_port line then v else masked i s) ≡ f (i == line) (masked i s)
  combine f line i s v off lt lt' e = elim (Bool-cases (data_port i == data_port line)) [
    | inl hit ↦
        let same : data_port i ≡ data_port line = (==_iff (data_port i) (data_port line)).0 hit in
        let here : (i == line) ≡ (line_within i == line_within line) =
          line_eq i line lt lt' ∙ ap (λ b. b && (line_within i == line_within line)) hit in
        rw hit (e ∙ ap₂ f (sym here) (ap (λ q. test_bit (D.mask q s) (line_within i)) (sym same)))
    | inr miss ↦
        let here : (i == line) ≡ false =
          line_eq i line lt lt' ∙ ap (λ b. b && (line_within i == line_within line)) miss in
        rw miss (sym (off (masked i s)) ∙ ap (λ b. f b (masked i s)) (sym here))
  ]

  -- `pic_set_mask` masks its line and leaves the others as they are.
  pub pic_set_mask_lem :
      (line : ℕ) (s : P.State)
      → D.Ready s
      → line < 16
      → (i : ℕ) → i < 16
      → masked i (pic_set_mask P line s) ≡ (i == line || masked i s)
  pic_set_mask_lem line s r lt i lt' =
      let m = D.mask (data_port line) s in
      let k = line_within line in
      let bits : test_bit (u8 (bit_or m (1 <<< k))) (line_within i)
          ≡ (line_within i == k || test_bit m (line_within i)) =
        test_bit-u8 (bit_or m (1 <<< k)) (line_within i) (within_small i lt')
        ∙ test_bit-bit_or (line_within i) m (1 <<< k)
        ∙ ap (λ b. test_bit m (line_within i) || b) (test_bit-pow k (line_within i))
        ∙ or_comm (test_bit m (line_within i)) (line_within i == k) in
      let out = masked_after line (u8 (bit_or m (1 <<< k))) s r (omega arith) i in
      rw (pic_set_mask-eq line s r) (
        out
        ∙ combine (λ b m. b || m) line i s (test_bit (u8 (bit_or m (1 <<< k))) (line_within i))
            (λ m. refl) lt' lt bits)

  -- `pic_clear_mask` unmasks its line and leaves the others as they are.
  pub pic_clear_mask_lem :
      (line : ℕ) (s : P.State)
      → D.Ready s
      → line < 16
      → (i : ℕ) → i < 16
      → masked i (pic_clear_mask P line s) ≡ (not (i == line) && masked i s)
  pic_clear_mask_lem line s r lt i lt' =
      let m = D.mask (data_port line) s in
      let k = line_within line in
      let bits : test_bit (u8 (bit_and m (not32 (1 <<< k)))) (line_within i)
          ≡ (not (line_within i == k) && test_bit m (line_within i)) =
        test_bit-u8 (bit_and m (not32 (1 <<< k))) (line_within i) (within_small i lt')
        ∙ test_bit-bit_and (line_within i) m (not32 (1 <<< k))
        ∙ ap (λ b. test_bit m (line_within i) && b)
            (test_bit-not 32 (line_within i) (1 <<< k) (bit_small k (within_small line lt))
                (omega (arith, within_small i lt'))
              ∙ ap not (test_bit-pow k (line_within i)))
        ∙ and_comm (test_bit m (line_within i)) (not (line_within i == k)) in
      let out = masked_after line (u8 (bit_and m (not32 (1 <<< k)))) s r (omega arith) i in
      rw (pic_clear_mask-eq line s r) (
        out
        ∙ combine (λ b m. not b && m) line i s
            (test_bit (u8 (bit_and m (not32 (1 <<< k)))) (line_within i)) (λ m. refl) lt' lt bits)

  all_masked :
      (s : P.State)
      → D.Ready s
      → (i : ℕ) → i < 16
      → masked i (P.outb pic2_data 0xFF (P.outb pic1_data 0xFF s)) ≡ true
  all_masked s r i lt =
      let s1 = P.outb pic1_data 0xFF s in
      let r1 = D.outb-Ready pic1_data 0xFF s (inl refl) r in
      let first : D.mask pic1_data (P.outb pic2_data 0xFF s1) ≡ 0xFF =
        D.outb_other pic2_data pic1_data 0xFF s1 (inr refl) (inl refl) (omega arith) r1
        ∙ D.outb_mask pic1_data 0xFF s (inl refl) r (omega arith) in
      let second : D.mask pic2_data (P.outb pic2_data 0xFF s1) ≡ 0xFF =
        D.outb_mask pic2_data 0xFF s1 (inr refl) r1 (omega arith) in
      let ones : (j : ℕ) → j < 8 → test_bit 0xFF j ≡ true =
        λ j l. test_bit-not 8 j 0 (omega arith) l ∙ ap not (test_bit-zero j) in
      elim (Bool-cases (ltb i 8)) [
        | inl low ↦ rw low (ap (λ w. test_bit w i) first ∙ ones i (ground arith))
        | inr high ↦ rw high (ap (λ w. test_bit w (i - 8)) second ∙ ones (i - 8) (ground arith))
      ]

  -- After `pic_remap` every line is masked, whatever the masks were before.
  pub pic_remap_lem :
      (offset1 offset2 : ℕ) (s : P.State) (i : ℕ)
      → i < 16
      → masked i (pic_remap P offset1 offset2 s) ≡ true
  unfolding pic_remap
  pic_remap_lem offset1 offset2 s i lt =
      let (a1, s1) = P.inb pic1_data s in
      let (a2, s2) = P.inb pic2_data s1 in
      let t1 = P.outb pic1_data a1 (icw P offset1 offset2 s2) in
      let r0 = D.icw-Ready offset1 offset2 s2 in
      let r1 : D.Ready t1 = D.outb-Ready pic1_data a1 (icw P offset1 offset2 s2) (inl refl) r0 in
      let r2 = D.outb-Ready pic2_data a2 t1 (inr refl) r1 in
      all_masked (P.outb pic2_data a2 t1) r2 i lt
