-- ===== src/Lifetimes/Held.antt =====
-- Lists of blocks at different addresses.
use svetos_kernel.Base.{ℕ, zero, suc, ◌≡◌, ◌≢◌, some, [], ◌∷◌, get_elem?, sym, subst, arith}
use svetos_kernel.Allocator.{Ptr}
use svetos_kernel.Lifetimes.{Blocks, remove}

-- No block of the list is at `p`.
abbrev pub NotAt : Ptr → Blocks → Type 0
NotAt p [] = Unit
NotAt p ((q, m) ∷ bs) = (q ≢ p) × NotAt p bs

abbrev pub AreDistinct : Blocks → Type 0
AreDistinct [] = Unit
AreDistinct ((p, n) ∷ bs) = NotAt p bs × AreDistinct bs

pub NotAt-elem :
    (p : Ptr) (bs : Blocks) (i : ℕ) (q : Ptr) (m : ℕ)
    → NotAt p bs
    → get_elem? bs i ≡ some (q, m)
    → q ≢ p
NotAt-elem p [] i q m a e = absurd (ground arith)
NotAt-elem p ((r, k) ∷ bs) zero q m a e = λ same. a.0 (ground arith)
NotAt-elem p ((r, k) ∷ bs) (suc i) q m a e = NotAt-elem p bs i q m a.1 e

pub NotAt-remove : (p : Ptr) (bs : Blocks) (i : ℕ) → NotAt p bs → NotAt p (remove i bs)
NotAt-remove p [] i a = tt
NotAt-remove p ((q, m) ∷ bs) zero a = a.1
NotAt-remove p ((q, m) ∷ bs) (suc i) a = (a.0, NotAt-remove p bs i a.1)

-- What is left when one block is removed is distinct, and none of it is where that block was.
pub AreDistinct-remove :
    (bs : Blocks) (i : ℕ) (p : Ptr) (n : ℕ)
    → AreDistinct bs
    → get_elem? bs i ≡ some (p, n)
    → AreDistinct (remove i bs) × NotAt p (remove i bs)
AreDistinct-remove [] i p n d e = absurd (ground arith)
AreDistinct-remove ((q, m) ∷ bs) zero p n d e =
    let same : q ≡ p = ground arith in (d.1, subst (λ r. NotAt r bs) same d.0)
AreDistinct-remove ((q, m) ∷ bs) (suc i) p n d e =
    let (d', a) = AreDistinct-remove bs i p n d.1 e in
    ((NotAt-remove q bs i d.0, d'), (λ same. NotAt-elem q bs i p n d.0 e (sym same), a))
