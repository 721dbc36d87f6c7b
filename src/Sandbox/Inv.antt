-- ===== src/Sandbox/Inv.antt =====
-- What holds of the table of sandboxes of kernel/src/sandbox/sandbox.c.
use mathlib.Core.Option
use svetos_kernel.Base.{
  ℕ, zero, suc, ◌+◌, ◌<◌, ◌≤◌, ◌≡◌, ◌≢◌, ◌⊎◌, inl, inr, refl, Bool, true, false, Option, none, some,
  List, [], ◌∷◌, ◌==◌, if◌then◌else◌, get_or, set, length, ap, sym, ◌∙◌, subst, Bool-cases,
  Option-cases, length-set, get_or-set_self, get_or-set_ne, arith,
}
use svetos_kernel.Allocator.{Allocator}
use svetos_kernel.Sandbox.{
  Slot, blank, sandbox_memory_size, first_free, Sandboxes, clear_used, sandbox_init,
}

abbrev pub bit : Bool → ℕ
bit false = 0
bit true = 1

-- how many slots are in use
unfoldable pub used_count : List Slot → ℕ
used_count [] = 0
used_count (x ∷ xs) = bit x.used + used_count xs

pub used_count-set :
    (xs : List Slot) (i : ℕ) (y : Slot)
    → i < length xs
    → used_count (set xs i y) + bit (get_or xs i blank).used ≡ used_count xs + bit y.used
unfolding used_count
used_count-set [] i y lt = absurd (omega arith)
used_count-set (x ∷ xs) zero y lt = omega arith
used_count-set (x ∷ xs) (suc i) y lt = omega (arith, used_count-set xs i y (omega arith))

pub used_count-le : (xs : List Slot) → used_count xs ≤ length xs
unfolding used_count
used_count-le [] = omega arith
used_count-le (x ∷ xs) = ground (arith, used_count-le xs)

pub set-set : (xs : List Slot) (i : ℕ) (x y : Slot) → set (set xs i x) i y ≡ set xs i y
set-set [] i x y = refl
set-set (z ∷ xs) zero x y = refl
set-set (z ∷ xs) (suc i) x y = ap (λ l. z ∷ l) (set-set xs i x y)

-- The search finds a slot that is not in use, and fails only when all are.
pub first_free-some :
    (xs : List Slot) (i : ℕ)
    → first_free xs ≡ some i
    → (i < length xs) × ((get_or xs i blank).used ≡ false)
unfolding first_free
first_free-some [] i e = cc
first_free-some (x ∷ xs) i e = elim (Bool-cases x.used) [
  | inl busy ↦
      let (j, found, above) =
        after (first_free xs)
          (subst (λ b. (if b then Option.map suc (first_free xs) else some 0) ≡ some i) busy e) in
      let (lt, idle) = first_free-some xs j found in rw above (omega arith, idle)
  | inr idle ↦ ground arith
]
  where
    after : (o : Option ℕ) → Option.map suc o ≡ some i → (j : ℕ) × (o ≡ some j) × (i ≡ suc j)
    after none e' = cc
    after (some j) e' = (j, refl, ground arith)

pub first_free-none : (xs : List Slot) → first_free xs ≡ none → used_count xs ≡ length xs
unfolding first_free used_count
first_free-none [] e = refl
first_free-none (x ∷ xs) e = elim (Option-cases (first_free xs)) [
  | inl no_more ↦ ground (arith, first_free-none xs no_more)
  | inr (j, found) ↦ ground arith
]

module _ (A : Allocator) where
  -- The table has 32 slots; a slot in use is numbered by its place and has its own block of memory.
  pub record IsSandboxes (s : Sandboxes A) : Type 0 where
    pub long : length s.slots ≡ 32
    pub counted : s.count ≡ used_count s.slots
    pub inv : A.Inv s.heap
    pub numbered : (i : ℕ) → (get_or s.slots i blank).used ≡ true → (get_or s.slots i blank).id ≡ i
    pub owned :
        (i : ℕ)
        → (get_or s.slots i blank).used ≡ true
        → A.Owned s.heap (get_or s.slots i blank).memory_ptr sandbox_memory_size
    pub apart :
        (i j : ℕ)
        → (get_or s.slots i blank).used ≡ true
        → (get_or s.slots j blank).used ≡ true
        → (get_or s.slots i blank).memory_ptr ≡ (get_or s.slots j blank).memory_ptr
        → i ≡ j

  -- What the slot `i` has to satisfy when it is written.
  pub record Fresh (s : Sandboxes A) (i : ℕ) (y : Slot) (heap : A.State) : Type 0 where
    pub inside : i < 32
    pub inv : A.Inv heap
    pub numbered : y.used ≡ true → y.id ≡ i
    pub owned : y.used ≡ true → A.Owned heap y.memory_ptr sandbox_memory_size
    pub kept :
        (j : ℕ)
        → i ≢ j
        → (get_or s.slots j blank).used ≡ true
        → A.Owned heap (get_or s.slots j blank).memory_ptr sandbox_memory_size
    pub other :
        (j : ℕ)
        → i ≢ j
        → y.used ≡ true
        → (get_or s.slots j blank).used ≡ true
        → (get_or s.slots j blank).memory_ptr ≢ y.memory_ptr

  module _ (s : Sandboxes A) (i : ℕ) (y : Slot) (heap : A.State) (v : IsSandboxes s)
      (f : Fresh s i y heap) where
    abbrev slot : ℕ → Slot
    slot j = get_or (set s.slots i y) j blank

    at_index : (j : ℕ) → ((i ≡ j) × (slot j ≡ y)) ⊎ ((i ≢ j) × (slot j ≡ get_or s.slots j blank))
    at_index j = elim (Bool-cases (i == j)) [
      | inl hit ↦
          let same : i ≡ j = ground arith in
          inl (
            same,
            ap slot (sym same)
                ∙ get_or-set_self s.slots i y blank (omega (arith, v.long, f.inside)),
          )
      | inr miss ↦ let ne : i ≢ j = ground arith in inr (ne, get_or-set_ne s.slots i j y blank ne)
    ]

    -- Writing such a slot, with the count it asks for, keeps the table well-formed.
    pub set-IsSandboxes :
        (count : ℕ)
        → count ≡ used_count (set s.slots i y)
        → IsSandboxes (record { slots = set s.slots i y; count = count; heap = heap })
    set-IsSandboxes count e = record {
      long = length-set s.slots i y ∙ v.long;
      counted = e;
      inv = f.inv;
      numbered = λ j u. elim (at_index j) [
        | inl (same, here) ↦ rw here (f.numbered (rw here at u) ∙ same)
        | inr (ne, there) ↦ rw there (v.numbered j (rw there at u))
      ];
      owned = λ j u. elim (at_index j) [
        | inl (same, here) ↦ rw here (f.owned (rw here at u))
        | inr (ne, there) ↦ rw there (f.kept j ne (rw there at u))
      ];
      apart = λ j k u w e'. elim (at_index j) [
        | inl (same, here) ↦ elim (at_index k) [
          | inl (same', here') ↦ sym same ∙ same'
          | inr (ne, there) ↦
              absurd (f.other k ne (rw here at u) (rw there at w) (sym (rw (here, there) at e')))
        ]
        | inr (ne, there) ↦ elim (at_index k) [
          | inl (same, here) ↦
              absurd (f.other j ne (rw here at w) (rw there at u) (rw (there, here) at e'))
          | inr (ne', there') ↦
              v.apart j k (rw there at u) (rw there' at w) (rw (there, there') at e')
        ]
      ];
    }

  clear_used-length : (xs : List Slot) → length (clear_used A xs) ≡ length xs
  unfolding clear_used
  clear_used-length [] = refl
  clear_used-length (x ∷ xs) = ap suc (clear_used-length xs)

  clear_used-unused : (xs : List Slot) (i : ℕ) → (get_or (clear_used A xs) i blank).used ≡ false
  unfolding clear_used
  clear_used-unused [] i = refl
  clear_used-unused (x ∷ xs) zero = refl
  clear_used-unused (x ∷ xs) (suc i) = clear_used-unused xs i

  clear_used-count : (xs : List Slot) → used_count (clear_used A xs) ≡ 0
  unfolding clear_used used_count
  clear_used-count [] = refl
  clear_used-count (x ∷ xs) = omega (arith, clear_used-count xs)

  -- `sandbox_init` leaves a well-formed table of 32 slots, of which none is in use.
  pub sandbox_init-IsSandboxes :
      (s : Sandboxes A)
      → length s.slots ≡ 32
      → A.Inv s.heap
      → IsSandboxes (sandbox_init A s) × (used_count (sandbox_init A s).slots ≡ 0)
  unfolding sandbox_init
  sandbox_init-IsSandboxes s long inv = (
    record {
      long = clear_used-length s.slots ∙ long;
      counted = sym (clear_used-count s.slots);
      inv = inv;
      numbered = λ i u. absurd (ground (arith, clear_used-unused s.slots i));
      owned = λ i u. absurd (ground (arith, clear_used-unused s.slots i));
      apart = λ i j u w e. absurd (ground (arith, clear_used-unused s.slots i));
    },
    clear_used-count s.slots,
  )
