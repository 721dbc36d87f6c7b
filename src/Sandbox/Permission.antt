-- ===== src/Sandbox/Permission.antt =====
-- Who may do what: the capability checks of kernel/src/sandbox/sandbox.c.
use svetos_kernel.Base.{
  sym, subst, ap, ◌∙◌, ◌*◌, ℕ, ◌<◌, ◌^◌, ◌≡◌, ◌≢◌, ◌↔◌, inl, inr, refl, true, false, ◌&&◌, ◌||◌,
  not, none, some, List, bit_and, bit_or, not32, get_or, set, length, Bool-cases, length-set,
  get_or-set_self, get_or-set_ne, ==_iff, leb-false, arith,
}
use svetos_kernel.Base.Int.{ℤ, pos, negsuc}
use svetos_kernel.Base.Bits.{
  test_bit, test_bit-bit_and, test_bit-bit_or, test_bit-not, test_bit-pow, eq_of_test_bit,
}
use svetos_kernel.Sandbox.{
  Slot, blank, cap_syscall, cap_ipc, lookup, check_permission, grant_capability, revoke_capability,
  syscall,
}

-- every bit of `req` is set in `caps`
abbrev pub Covers : ℕ → ℕ → Type 0
Covers caps req = (i : ℕ) → test_bit req i ≡ true → test_bit caps i ≡ true

bit_and-Covers : (a b : ℕ) → bit_and a b ≡ b → Covers a b
bit_and-Covers a b e i h =
    let here : test_bit (bit_and a b) i ≡ true = rw e h in ground (arith, test_bit-bit_and i a b)

Covers-bit_and : (a b : ℕ) → Covers a b → bit_and a b ≡ b
Covers-bit_and a b c =
    eq_of_test_bit (bit_and a b) b λ i. ground (arith, test_bit-bit_and i a b, c i)

-- a slot in use at an index that the code accepts
pub record IsUsed (slots : List Slot) (i : ℕ) : Type 0 where
  pub small : i < 32
  pub inside : i < length slots
  pub used : (get_or slots i blank).used ≡ true

pub lookup-used : (slots : List Slot) (i : ℕ) → IsUsed slots i → lookup slots (pos i) ≡ some i
unfolding lookup
lookup-used slots i u = rw (leb-false 32 i u.small, u.used)

-- Of a sandbox in use, the check passes exactly when every required bit is among its capabilities.
pub check_permission_iff :
    (slots : List Slot) (i req : ℕ)
    → IsUsed slots i
    → (check_permission slots (pos i) req ≡ true) ↔ Covers (get_or slots i blank).capabilities req
unfolding check_permission
check_permission_iff slots i req u =
    let caps = (get_or slots i blank).capabilities in
    rw (lookup-used slots i u) (
      λ e. bit_and-Covers caps req ((==_iff (bit_and caps req) req).0 e),
      λ c. (==_iff (bit_and caps req) req).1 (Covers-bit_and caps req c),
    )

-- No check passes for an id that is negative, out of range, or not in use.
pub check_permission_unused :
    (slots : List Slot) (sandbox_id : ℤ) (req : ℕ)
    → lookup slots sandbox_id ≡ none
    → check_permission slots sandbox_id req ≡ false
unfolding check_permission
check_permission_unused slots sandbox_id req e = rw e

other :
    (slots : List Slot) (i j req : ℕ) (y : Slot)
    → i < length slots
    → i ≢ j
    → y.used ≡ (get_or slots i blank).used
    → check_permission (set slots i y) (pos j) req ≡ check_permission slots (pos j) req
unfolding check_permission lookup
other slots i j req y inside ne e = ground (arith, get_or-set_ne slots i j y blank ne)

module _ (slots : List Slot) (i cap : ℕ) (u : IsUsed slots i) where
  abbrev x : Slot
  x = get_or slots i blank

  grant_capability-eq :
      grant_capability slots (pos i) cap
      ≡ (true, set slots i (record x { capabilities = bit_or x.capabilities cap }))
  unfolding grant_capability
  grant_capability-eq = rw (lookup-used slots i u)

  revoke_capability-eq :
      revoke_capability slots (pos i) cap
      ≡ (true, set slots i (record x { capabilities = bit_and x.capabilities (not32 cap) }))
  unfolding revoke_capability
  revoke_capability-eq = rw (lookup-used slots i u)

  -- Granting succeeds for a sandbox in use: it then holds exactly what it held and the new bits, and
  -- passes a check for these, and what any other sandbox may do is unchanged.
  pub grant_capability_lem :
      let (granted, slots') = grant_capability slots (pos i) cap in
      (granted ≡ true)
      × ((b : ℕ)
          → test_bit (get_or slots' i blank).capabilities b
            ≡ (test_bit (get_or slots i blank).capabilities b || test_bit cap b))
      × (check_permission slots' (pos i) cap ≡ true)
      × ((j req : ℕ)
          → i ≢ j
          → check_permission slots' (pos j) req ≡ check_permission slots (pos j) req)
  grant_capability_lem =
      let y = record x { capabilities = bit_or x.capabilities cap } in
      let now = get_or-set_self slots i y blank u.inside in
      rw grant_capability-eq (
        refl,
        λ b. rw now (test_bit-bit_or b x.capabilities cap),
        (check_permission_iff (set slots i y) i cap (record {
          small = u.small;
          inside = rw (length-set slots i y) u.inside;
          used = rw now u.used;
        })).1
            λ b h. rw now (ground (arith, test_bit-bit_or b x.capabilities cap)),
        λ j req ne. other slots i j req y u.inside ne refl,
      )

  -- Revoking a word of 32 bits succeeds for a sandbox in use: of its 32 capabilities it then holds
  -- those that it held except the bits given, every check for one of these fails, and what any other
  -- sandbox may do is unchanged.
  pub revoke_capability_lem :
      cap < 2 ^ 32
      → let (revoked, slots') = revoke_capability slots (pos i) cap in
        (revoked ≡ true)
        × ((b : ℕ)
            → b < 32
            → test_bit (get_or slots' i blank).capabilities b
              ≡ (test_bit (get_or slots i blank).capabilities b && not (test_bit cap b)))
        × ((req b : ℕ)
            → b < 32
            → test_bit cap b ≡ true
            → test_bit req b ≡ true
            → check_permission slots' (pos i) req ≡ false)
        × ((j req : ℕ)
            → i ≢ j
            → check_permission slots' (pos j) req ≡ check_permission slots (pos j) req)
  revoke_capability_lem small =
      let y = record x { capabilities = bit_and x.capabilities (not32 cap) } in
      let now = get_or-set_self slots i y blank u.inside in
      let bits : (b : ℕ)
          → b < 32
          → test_bit y.capabilities b ≡ (test_bit x.capabilities b && not (test_bit cap b)) =
        λ b lt.
          rw (test_bit-bit_and b x.capabilities (not32 cap), test_bit-not 32 b cap small lt) in
      rw revoke_capability-eq (
        refl,
        λ b lt. rw now (bits b lt),
        λ req b lt h h'. elim (Bool-cases (check_permission (set slots i y) (pos i) req)) [
          | inl passes ↦
              let c =
                (check_permission_iff (set slots i y) i req (record {
                  small = u.small;
                  inside = rw (length-set slots i y) u.inside;
                  used = rw now u.used;
                })).0
                  passes b h' in
              let c' : test_bit y.capabilities b ≡ true = rw now at c in
              absurd (ground (arith, bits b lt))
          | inr fails ↦ fails
        ],
        λ j req ne. other slots i j req y u.inside ne refl,
      )

Covers-pow : (caps k : ℕ) → Covers caps (1 * 2 ^ k) ↔ test_bit caps k ≡ true
Covers-pow caps k = (
  λ c. c k (test_bit-pow k k ∙ (==_iff k k).1 refl),
  λ h i asked.
      let same : i ≡ k = (==_iff i k).0 (sym (test_bit-pow k i) ∙ asked) in
      subst (λ j. test_bit caps j ≡ true) (sym same) h,
)

-- A system call by a sandbox in use is let through exactly when it is for sending a message and,
-- among the sandbox's capabilities, bits 4 (`CAP_SYSCALL`) and 5 (`CAP_IPC`) are set. With an id
-- that is negative, out of range or not in use, none is let through.
pub syscall_iff :
    (slots : List Slot) (i : ℕ) (sandbox_id num : ℤ)
    → (IsUsed slots i
        → (syscall slots (pos i) num ≡ true) ↔ (
            (num ≡ pos 1)
            × (test_bit (get_or slots i blank).capabilities 4 ≡ true)
            × (test_bit (get_or slots i blank).capabilities 5 ≡ true)))
      × (lookup slots sandbox_id ≡ none → syscall slots sandbox_id num ≡ false)
unfolding syscall
syscall_iff slots i sandbox_id num =
    (λ u. used u num, λ out. rw (check_permission_unused slots sandbox_id cap_syscall out) refl)
  where
    used :
        IsUsed slots i
        → (n : ℤ)
        → (syscall slots (pos i) n ≡ true) ↔ (
            (n ≡ pos 1)
            × (test_bit (get_or slots i blank).capabilities 4 ≡ true)
            × (test_bit (get_or slots i blank).capabilities 5 ≡ true))
    used u (negsuc n) = (λ e. absurd (ground arith), λ (e, _, _). cc)
    used u (pos n) =
        let caps = (get_or slots i blank).capabilities in
        let (may, may') = check_permission_iff slots i cap_syscall u in
        let (send, send') = check_permission_iff slots i cap_ipc u in
        let (bit4, bit4') = Covers-pow caps 4 in
        let (bit5, bit5') = Covers-pow caps 5 in
        (
          λ e.
              let allowed : check_permission slots (pos i) cap_syscall ≡ true = ground arith in
              let sends : check_permission slots (pos i) cap_ipc ≡ true = ground arith in
              let one : n ≡ 1 = ground arith in (ap pos one, bit4 (may allowed), bit5 (send sends)),
          λ (e, b4, b5).
              let one : n ≡ 1 = ground arith in rw (one, may' (bit4' b4), send' (bit5' b5)) refl,
        )
