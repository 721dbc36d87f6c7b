-- ===== src/Mm/Fit.antt =====
-- The search loop of `kmalloc` finds the best fit.
use svetos_kernel.Base.{
  ℕ, zero, suc, ◌≤◌, ◌<◌, ◌≡◌, ◌≢◌, ◌⊎◌, inl, inr, refl, some, [], ◌∷◌, length, ap, subst, ◌∙◌,
  arith,
}
use svetos_kernel.Mm.{Ptr, null, Memory, better, find_best}
use svetos_kernel.Mm.Layout.{Cell, Cells, after, CellAt, Fits}
use svetos_kernel.Mm.Chain.{Chain, link}

-- `q` is the choice among the blocks of `cs` and an earlier choice `best`: the smallest that fits,
-- and of equal ones the one at the lowest address.
pub record IsChoice (mem : Memory) (n : ℕ) (p : Ptr) (cs : Cells) (best q : Ptr) : Type 0 where
  pub origin : (q ≡ best) ⊎ ((c : Cell) × CellAt p cs q c × Fits n c)
  pub earlier :
      best ≢ null
      → (q ≢ null) × ((mem q).size ≤ (mem best).size) × ((mem q).size ≡ (mem best).size → q ≤ best)
  pub least :
      (r : Ptr) (c : Cell)
      → CellAt p cs r c
      → Fits n c
      → (q ≢ null) × ((mem q).size ≤ c.size) × ((mem q).size ≡ c.size → q ≤ r)

-- one round: `b` is what the round leaves in `best_fit`
record IsRound (mem : Memory) (n : ℕ) (p : Ptr) (c : Cell) (best b : Ptr) : Type 0 where
  either : (b ≡ best) ⊎ ((b ≡ p) × Fits n c)
  bound : b ≤ p
  kept :
      best ≢ null
      → (b ≢ null) × ((mem b).size ≤ (mem best).size) × ((mem b).size ≡ (mem best).size → b ≤ best)
  took : Fits n c → (b ≢ null) × ((mem b).size ≤ c.size) × ((mem b).size ≡ c.size → b ≤ p)

better-IsRound :
    (mem : Memory) (n : ℕ) (p : Ptr) (c : Cell) (cs : Cells) (best : Ptr)
    → Chain mem p (c ∷ cs)
    → 0 < p
    → best ≤ p
    → IsRound mem n p c best (better mem n p best)
unfolding better
better-IsRound mem n p c cs best ch pos le = record {
  either = ground arith;
  bound = ground arith;
  kept = ground arith;
  took = ground arith;
}

module _ (mem : Memory) (n : ℕ) (p : Ptr) (c : Cell) (cs : Cells) (best b q : Ptr)
    (r : IsRound mem n p c best b) (ch : IsChoice mem n (after p c) cs b q) where
  origin-cons :
      (q ≡ b) ⊎ ((d : Cell) × CellAt (after p c) cs q d × Fits n d)
      → (b ≡ best) ⊎ ((b ≡ p) × Fits n c)
      → (q ≡ best) ⊎ ((d : Cell) × CellAt p (c ∷ cs) q d × Fits n d)
  origin-cons (inl e) (inl e') = inl (e ∙ e')
  origin-cons (inl e) (inr (e', fits)) = inr (c, inl (e ∙ e', refl), fits)
  origin-cons (inr (d, at, fits)) _ = inr (d, inr at, fits)

  least-cons :
      (a : Ptr) (d : Cell)
      → CellAt p (c ∷ cs) a d
      → Fits n d
      → (q ≢ null) × ((mem q).size ≤ d.size) × ((mem q).size ≡ d.size → q ≤ a)
  least-cons a d (inl (e, e')) fits =
      let here : Fits n c = subst (Fits n) e' fits in
      let same : d.size ≡ c.size = ap (λ (x : Cell). x.size) e' in
      let t = r.took here in let k = ch.earlier t.0 in (k.0, omega arith, λ eq. omega arith)
  least-cons a d (inr at) fits = ch.least a d at fits

  IsChoice-cons : IsChoice mem n p (c ∷ cs) best q
  IsChoice-cons = record {
    origin = origin-cons ch.origin r.either;
    earlier =
        λ ne. let k = r.kept ne in let l = ch.earlier k.0 in (l.0, omega arith, λ eq. omega arith);
    least = least-cons;
  }

pub find_best-IsChoice :
    (mem : Memory) (n fuel : ℕ) (p : Ptr) (cs : Cells) (best : Ptr)
    → Chain mem p cs
    → 0 < p
    → best ≤ p
    → length cs < fuel
    → (q : Ptr) × (find_best mem n fuel (link p cs) best ≡ some q) × IsChoice mem n p cs best q
unfolding find_best
find_best-IsChoice mem n zero p cs best ch pos le lt = absurd (omega arith)
find_best-IsChoice mem n (suc fuel) p [] best ch pos le lt = (
  best,
  refl,
  record {
    origin = inl refl;
    earlier = λ ne. (ne, omega arith, λ e. omega arith);
    least = λ r c at fits. absurd at;
  },
)
find_best-IsChoice mem n (suc fuel) p (c ∷ cs) best ch pos le lt =
    let round = better-IsRound mem n p c cs best ch pos le in
    let (q, found, choice) =
      find_best-IsChoice mem n fuel (after p c) cs (better mem n p best) ch.1 (omega arith)
        (omega (arith, round.bound)) (omega arith) in
    let step : find_best mem n fuel (mem p).next (better mem n p best) ≡ some q = rw ch.0 found in
    (q, ground arith, IsChoice-cons mem n p c cs best (better mem n p best) q round choice)
