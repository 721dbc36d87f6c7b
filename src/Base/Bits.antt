-- ===== src/Base/Bits.antt =====
-- `&`, `|` and `~` on words: digit recursion, single bits, fields and masks.
use Prim.Native.Nat.{
  ℕ, zero, suc, ◌+◌, ◌-◌, ◌*◌, ◌/◌, ◌%◌, ◌^◌, ◌≤◌, ◌<◌, min, max, bit_and, bit_or, digits, bitwise,
  bit_and-bitwise, bit_or-bitwise,
}
use mathlib.Core.Path.{subst, ◌≡◌, refl, ap}
use mathlib.Core.Bool.{Bool, false, not, ◌&&◌, ◌||◌}
use native.Mathlib.Omega.{arith}
use native.Mathlib.Nat.{pow-suc, pow-succ', one-le-pow, mul-one, div-one, div-div-eq-div-mul}
use svetos_kernel.Base.Tests.{◌==◌}

module _ (rest : ℕ → ℕ) (op : ℕ → ℕ → ℕ) where
  -- The digit recursion does not depend on its fuel.
  digits-fuel : (m n a b : ℕ) → a ≤ m → a ≤ n → digits rest op m a b ≡ digits rest op n a b
  digits-fuel zero zero zero b p q = refl
  digits-fuel zero zero (suc a) b p q = refl
  digits-fuel (suc m) zero zero b p q = refl
  digits-fuel (suc m) zero (suc a) b p q = absurd (omega arith)
  digits-fuel zero (suc n) zero b p q = refl
  digits-fuel zero (suc n) (suc a) b p q = absurd (omega arith)
  digits-fuel (suc m) (suc n) zero b p q = refl
  digits-fuel (suc m) (suc n) (suc a) b p q =
      omega (arith, digits-fuel m n (suc a / 2) (b / 2) (omega arith) (omega arith))

  bitwise-digit :
      (a b : ℕ)
      → bitwise rest op (suc a) b ≡ bitwise rest op (suc a / 2) (b / 2) * 2 + op (suc a % 2) (b % 2)
  bitwise-digit a b =
      omega (arith, digits-fuel a (suc a / 2) (suc a / 2) (b / 2) (omega arith) (omega arith))

pub bit_and-digit : (a b : ℕ) → bit_and a b ≡ bit_and (a / 2) (b / 2) * 2 + min (a % 2) (b % 2)
bit_and-digit zero b = simp bit_and-bitwise (omega arith)
bit_and-digit (suc a) b = simp bit_and-bitwise (bitwise-digit (λ y. 0) min a b)

pub bit_or-digit : (a b : ℕ) → bit_or a b ≡ bit_or (a / 2) (b / 2) * 2 + max (a % 2) (b % 2)
bit_or-digit zero b = simp bit_or-bitwise (omega arith)
bit_or-digit (suc a) b = simp bit_or-bitwise (bitwise-digit (λ y. y) max a b)

-- Bit `i` of a word.
abbrev pub test_bit : ℕ → ℕ → Bool
test_bit w zero = w % 2 == 1
test_bit w (suc i) = test_bit (w / 2) i

pub test_bit-bit_and : (i a b : ℕ) → test_bit (bit_and a b) i ≡ (test_bit a i && test_bit b i)
test_bit-bit_and zero a b = ground (arith, bit_and-digit a b)
test_bit-bit_and (suc i) a b =
    let half : bit_and a b / 2 ≡ bit_and (a / 2) (b / 2) = omega (arith, bit_and-digit a b) in
    rw half (test_bit-bit_and i (a / 2) (b / 2))

pub test_bit-bit_or : (i a b : ℕ) → test_bit (bit_or a b) i ≡ (test_bit a i || test_bit b i)
test_bit-bit_or zero a b = ground (arith, bit_or-digit a b)
test_bit-bit_or (suc i) a b =
    let half : bit_or a b / 2 ≡ bit_or (a / 2) (b / 2) = omega (arith, bit_or-digit a b) in
    rw half (test_bit-bit_or i (a / 2) (b / 2))

-- `~ x` on `k` bits turns each of them round.
pub test_bit-not : (k i x : ℕ) → x < 2 ^ k → i < k → test_bit (2 ^ k - 1 - x) i ≡ not (test_bit x i)
test_bit-not zero i x h lt = absurd (omega arith)
test_bit-not (suc k) zero x h lt = ground (arith, pow-suc 2 k)
test_bit-not (suc k) (suc i) x h lt =
    let half : (2 ^ suc k - 1 - x) / 2 ≡ 2 ^ k - 1 - x / 2 = omega (arith, pow-suc 2 k) in
    rw half (test_bit-not k i (x / 2) (omega (arith, pow-suc 2 k)) (omega arith))

-- A number is determined by its bits.
same_bits : (n a b : ℕ) → a ≤ n → b ≤ n → ((i : ℕ) → test_bit a i ≡ test_bit b i) → a ≡ b
same_bits zero a b p q h = omega arith
same_bits (suc n) a b p q h =
    let low : a % 2 ≡ b % 2 = ground (arith, h 0) in
    let high : a / 2 ≡ b / 2 =
      same_bits n (a / 2) (b / 2) (omega arith) (omega arith) (λ i. h (suc i)) in
    omega arith

pub eq_of_test_bit : (a b : ℕ) → ((i : ℕ) → test_bit a i ≡ test_bit b i) → a ≡ b
eq_of_test_bit a b h = same_bits (a + b) a b (omega arith) (omega arith) h

pub test_bit-zero : (i : ℕ) → test_bit 0 i ≡ false
test_bit-zero zero = refl
test_bit-zero (suc i) = test_bit-zero i

pub test_bit_above : (k i x : ℕ) → x < 2 ^ k → k ≤ i → test_bit x i ≡ false
test_bit_above zero i x h le = let e : x ≡ 0 = omega arith in rw e (test_bit-zero i)
test_bit_above (suc k) zero x h le = absurd (omega arith)
test_bit_above (suc k) (suc i) x h le =
    test_bit_above k i (x / 2) (omega (arith, pow-suc 2 k)) (omega arith)

pub bit_and-zero : (a : ℕ) → bit_and a 0 ≡ 0
bit_and-zero a =
    eq_of_test_bit (bit_and a 0) 0 λ i. ground (arith, test_bit-bit_and i a 0, test_bit-zero i)

pub bit_or-zero : (a : ℕ) → bit_or a 0 ≡ a
bit_or-zero a =
    eq_of_test_bit (bit_or a 0) a λ i. ground (arith, test_bit-bit_or i a 0, test_bit-zero i)

double_pow : (q k : ℕ) → q * 2 ^ suc k ≡ 2 * (q * 2 ^ k)
double_pow q k = omega (arith, ap (λ (t : ℕ). q * t) (pow-suc 2 k))

halves : (k a : ℕ) → a / 2 ^ suc k ≡ a / 2 / 2 ^ k
halves k a = rw (pow-succ' 2 k, div-div-eq-div-mul)

-- A mask whose `k` low bits are clear.
pub bit_and-shifted : (k a m : ℕ) → bit_and a (m * 2 ^ k) ≡ bit_and (a / 2 ^ k) m * 2 ^ k
bit_and-shifted zero a m = rw (mul-one m, mul-one (bit_and (a / 1) m), div-one a)
bit_and-shifted (suc k) a m = ground (
  arith,
  bit_and-digit a (m * 2 ^ suc k),
  double_pow m k,
  double_pow (bit_and (a / 2 ^ suc k) m) k,
  bit_and-shifted k (a / 2) m,
  halves k a,
)

mask_of_fields : (k q r : ℕ) → r < 2 ^ k → bit_and (q * 2 ^ k + r) (2 ^ k - 1) ≡ r
mask_of_fields zero q r h = omega (arith, bit_and-zero (q * 1 + r))
mask_of_fields (suc k) q r h = ground (
  arith,
  bit_and-digit (q * 2 ^ suc k + r) (2 ^ suc k - 1),
  double_pow q k,
  pow-suc 2 k,
  one-le-pow k 2,
  mask_of_fields k q (r / 2),
)

-- A mask of `k` ones is the remainder by `2 ^ k`.
pub bit_and-mask : (k a : ℕ) → bit_and a (2 ^ k - 1) ≡ a % 2 ^ k
bit_and-mask k a = ground (arith, one-le-pow k 2, mask_of_fields k (a / 2 ^ k) (a % 2 ^ k))

-- `|` of a high field and a low one is their sum.
pub bit_or-fields : (k q r : ℕ) → r < 2 ^ k → bit_or (q * 2 ^ k) r ≡ q * 2 ^ k + r
bit_or-fields zero q r h = ground (arith, bit_or-zero q)
bit_or-fields (suc k) q r h = ground (
  arith,
  bit_or-digit (q * 2 ^ suc k) r,
  double_pow q k,
  pow-suc 2 k,
  bit_or-fields k q (r / 2) (omega (arith, pow-suc 2 k)),
)

pub bit_or_comm : (a b : ℕ) → bit_or a b ≡ bit_or b a
bit_or_comm a b =
    eq_of_test_bit (bit_or a b) (bit_or b a)
      λ i. ground (arith, test_bit-bit_or i a b, test_bit-bit_or i b a)

-- A field is put above a narrower one, in either order.
pub bit_or-low : (k q r : ℕ) → r < 2 ^ k → bit_or r (q * 2 ^ k) ≡ q * 2 ^ k + r
bit_or-low k q r h = rw (bit_or_comm r (q * 2 ^ k)) (bit_or-fields k q r h)

pub test_bit-pow : (k i : ℕ) → test_bit (1 * 2 ^ k) i ≡ (i == k)
test_bit-pow zero zero = refl
test_bit-pow zero (suc i) = ground (arith, test_bit-zero i)
test_bit-pow (suc k) zero = ground (arith, pow-suc 2 k)
test_bit-pow (suc k) (suc i) =
    let half : 1 * 2 ^ suc k / 2 ≡ 1 * 2 ^ k = omega (arith, pow-suc 2 k) in
    rw half (ground (arith, test_bit-pow k i))

-- A cut to 8 bits keeps the low bits.
pub test_bit-u8 : (a i : ℕ) → i < 8 → test_bit (a % 256) i ≡ test_bit a i
test_bit-u8 a i lt =
    let cut : bit_and a 255 ≡ a % 256 = bit_and-mask 8 a in
    let ones : test_bit 255 i ≡ not (test_bit 0 i) = test_bit-not 8 i 0 (omega arith) lt in
    subst (λ x. test_bit x i ≡ test_bit a i) cut
      (ground (arith, test_bit-bit_and i a 255, test_bit-zero i))
