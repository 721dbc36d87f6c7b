-- ===== src/Idt/Decode.antt =====
-- What the processor finds in the table of kernel/src/interrupts/idt.c.
use svetos_kernel.Base.{
  ℕ, zero, suc, ◌+◌, ◌*◌, ◌/◌, ◌%◌, ◌^◌, ◌<◌, ◌≡◌, inl, inr, refl, Bool, true, false, List, [], ◌∷◌,
  ◌==◌, if◌then◌else◌, Bool-cases, bit_and, Option, some, none, get_or, set, length, ap, ◌∙◌,
  length-set, get_or-set_self, get_or-set_ne, arith,
}
use svetos_kernel.Base.Bits.{bit_and-mask}
use svetos_kernel.Idt.{IdtEntry, idt_entry, idt_set_gate, Isr, clear_idt, idt_init}

abbrev pub absent : IdtEntry
absent = record { base_low = 0; sel = 0; always0 = 0; flags = 0; base_high = 0 }

abbrev pub offset_of : IdtEntry → ℕ
offset_of e = e.base_low + e.base_high * 2 ^ 16

-- the routine that an exception of this number has
pub handler_of : Isr → ℕ → Option ℕ
handler_of isr n =
    if n == 14
    then some isr.isr14
    else if n == 13
    then some isr.isr13
    else if n == 8
    then some isr.isr8
    else if n == 6
    then some isr.isr6
    else if n == 0
    then some isr.isr0
    else none

abbrev pub on_handler {ℓ} : {A : Type ℓ} → Option ℕ → A → (ℕ → A) → A
on_handler none a f = a
on_handler (some x) a f = f x

-- A descriptor gives back the address of its routine.
pub idt_entry_lem :
    (base sel flags : ℕ) → base < 2 ^ 32 → offset_of (idt_entry base sel flags) ≡ base
unfolding idt_entry
idt_entry_lem base sel flags b =
    let low : bit_and base 0xFFFF ≡ base % 2 ^ 16 = bit_and-mask 16 base in
    let high : bit_and (base / 2 ^ 16) 0xFFFF ≡ base / 2 ^ 16 % 2 ^ 16 =
      bit_and-mask 16 (base / 2 ^ 16) in
    rw (low, high) (omega arith)

clear_idt-length : (xs : List IdtEntry) → length (clear_idt xs) ≡ length xs
unfolding clear_idt
clear_idt-length [] = refl
clear_idt-length (x ∷ xs) = ap suc (clear_idt-length xs)

clear_idt-absent : (xs : List IdtEntry) (i : ℕ) → get_or (clear_idt xs) i absent ≡ absent
unfolding clear_idt
clear_idt-absent [] i = refl
clear_idt-absent (x ∷ xs) zero = refl
clear_idt-absent (x ∷ xs) (suc i) = clear_idt-absent xs i

set-at :
    (xs : List IdtEntry) (i j base : ℕ)
    → i < length xs
    → (length (idt_set_gate i base 0x08 0x8E xs) ≡ length xs)
      × (get_or (idt_set_gate i base 0x08 0x8E xs) j absent
          ≡ (if j == i then idt_entry base 0x08 0x8E else get_or xs j absent))
unfolding idt_set_gate
set-at xs i j base lt = (
  length-set xs i (idt_entry base 0x08 0x8E),
  elim (Bool-cases (j == i)) [
    | inl hit ↦
        let same : j ≡ i = ground arith in
        rw hit (
          ap (λ k. get_or (set xs i (idt_entry base 0x08 0x8E)) k absent) same
          ∙ get_or-set_self xs i (idt_entry base 0x08 0x8E) absent lt)
    | inr miss ↦ rw miss (get_or-set_ne xs i j (idt_entry base 0x08 0x8E) absent (ground arith))
  ],
)

chain :
    (isr : Isr) (f : ℕ → IdtEntry) (d : IdtEntry) (b14 b13 b8 b6 b0 : Bool)
    → (if b14
        then f isr.isr14
        else if b13
        then f isr.isr13
        else if b8
        then f isr.isr8
        else if b6
        then f isr.isr6
        else if b0
        then f isr.isr0
        else d)
      ≡ on_handler
          (if b14
            then some isr.isr14
            else if b13
            then some isr.isr13
            else if b8
            then some isr.isr8
            else if b6
            then some isr.isr6
            else if b0
            then some isr.isr0
            else none)
          d
          f
chain isr f d true b13 b8 b6 b0 = refl
chain isr f d false true b8 b6 b0 = refl
chain isr f d false false true b6 b0 = refl
chain isr f d false false false true b0 = refl
chain isr f d false false false false true = refl
chain isr f d false false false false false = refl

idt_init-entry :
    (isr : Isr) (entries : List IdtEntry) (n : ℕ)
    → length entries ≡ 256
    → get_or (idt_init isr entries) n absent
      ≡ on_handler (handler_of isr n) absent (λ base. idt_entry base 0x08 0x8E)
unfolding idt_init handler_of
idt_init-entry isr entries n long =
    let e = clear_idt entries in
    let e0 = idt_set_gate 0 isr.isr0 0x08 0x8E e in
    let e1 = idt_set_gate 6 isr.isr6 0x08 0x8E e0 in
    let e2 = idt_set_gate 8 isr.isr8 0x08 0x8E e1 in
    let e3 = idt_set_gate 13 isr.isr13 0x08 0x8E e2 in
    let cleared = clear_idt-length entries in
    let s0 = set-at e 0 n isr.isr0 (omega arith) in
    let s1 = set-at e0 6 n isr.isr6 (omega arith) in
    let s2 = set-at e1 8 n isr.isr8 (omega arith) in
    let s3 = set-at e2 13 n isr.isr13 (omega arith) in
    let s4 = set-at e3 14 n isr.isr14 (omega arith) in
    rw (s4.1, s3.1, s2.1, s1.1, s0.1, clear_idt-absent entries n)
      (chain isr (λ base. idt_entry base 0x08 0x8E) absent (n == 14) (n == 13) (n == 8) (n == 6)
        (n == 0))

-- After `idt_init` on a table of 256 entries, an exception of one of the five numbers finds a
-- descriptor with the address of its routine (below 2 ^ 32) in its two halves, selector 8, the byte
-- that is always 0, and flags 0x8E, a present interrupt gate; every other entry is absent.
pub idt_init_lem :
    (isr : Isr) (entries : List IdtEntry) (n : ℕ)
    → length entries ≡ 256
    → let e = get_or (idt_init isr entries) n absent in
      (handler_of isr n ≡ none → e ≡ absent)
      × ((routine : ℕ)
          → handler_of isr n ≡ some routine
          → routine < 2 ^ 32
          → (e.base_low ≡ routine % 2 ^ 16)
            × (e.base_high ≡ routine / 2 ^ 16)
            × (e.sel ≡ 8)
            × (e.always0 ≡ 0)
            × (e.flags ≡ 0x8E))
unfolding idt_entry
idt_init_lem isr entries n long =
    let at = idt_init-entry isr entries n long in
    (
      λ out. rw (at, out) refl,
      λ routine found small.
          let low : bit_and routine 0xFFFF ≡ routine % 2 ^ 16 = bit_and-mask 16 routine in
          let high : bit_and (routine / 2 ^ 16) 0xFFFF ≡ routine / 2 ^ 16 % 2 ^ 16 =
            bit_and-mask 16 (routine / 2 ^ 16) in
          rw (at, found) (low, high ∙ omega arith, refl, refl, refl),
    )
