-- ===== src/Registry/Bytewise.antt =====
-- The string functions as byte by byte comparison and copy.
use svetos_kernel.Base.{
  ℕ, zero, suc, ◌≤◌, ◌≡◌, ◌↔◌, refl, Bool, true, false, ◌&&◌, [], ◌∷◌, ◌==◌, take, length, ap, ap₂,
  ==_iff, arith,
}
use svetos_kernel.Registry.{Str, CString}

abbrev pub same : Str → Str → Bool
same [] [] = true
same [] (y ∷ ys) = false
same (x ∷ xs) [] = false
same (x ∷ xs) (y ∷ ys) = (x == y) && same xs ys

pub same_iff : (a b : Str) → (same a b ≡ true) ↔ (a ≡ b)
same_iff [] [] = (λ _. refl, λ _. refl)
same_iff [] (y ∷ ys) = (λ e. cc, λ e. cc)
same_iff (x ∷ xs) [] = (λ e. cc, λ e. cc)
same_iff (x ∷ xs) (y ∷ ys) =
    let rest = same_iff xs ys in
    let eq = ==_iff x y in
    (
      λ e. ap₂ ◌∷◌ (eq.0 (ground arith)) (rest.0 (ground arith)),
      λ e.
          let h : x ≡ y = ground arith in
          let t : xs ≡ ys = ground arith in ground (arith, rest.1 t),
    )

pub short_take : (src : Str) (n : ℕ) → length src ≤ n → take n src ≡ src
short_take [] zero le = refl
short_take [] (suc n) le = refl
short_take (x ∷ xs) zero le = absurd (omega arith)
short_take (x ∷ xs) (suc n) le = ap (λ l. x ∷ l) (short_take xs n (omega arith))

abbrev pub bytewise : CString
bytewise = record {
  strncpy = λ src n. take n src;
  strncpy_lem = short_take;
  strcmp = same;
  strcmp_iff = same_iff;
}
