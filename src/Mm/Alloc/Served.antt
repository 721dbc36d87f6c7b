-- ===== src/Mm/Alloc/Served.antt =====
-- What a caller of `kmalloc` may rely on: its block is new and large enough, and the blocks that
-- others hold are left alone.
use svetos_kernel.Base.{
  ℕ, ◌+◌, ◌≤◌, ◌<◌, ◌≡◌, ◌≢◌, ◌↔◌, ◌⊎◌, inl, inr, refl, false, Option, some, ◌^◌, ◌%◌, Bool-cases,
  ◌==◌, subst, subst₂, arith,
}
use svetos_kernel.Mm.{Ptr, null, Mm, block_header, align, kmalloc, hand_out}
use svetos_kernel.Mm.Layout.{Cell, Cells, cell, CellAt, Fits, place, CellAt-unique, CellAt-aligned}
use svetos_kernel.Mm.Chain.{IsHeap, IsLive}
use svetos_kernel.Mm.Alloc.Blocks.{
  granted, granted_bounds, CellAt-place_self, CellAt-place_ne, CellAt-place_inv,
}
use svetos_kernel.Mm.Alloc.{
  align-eq, align-mod, hand_out-IsHeap, Returned, served, refused, kmalloc_lem,
}

-- what holds after `kmalloc` returned `p` for `size` bytes
pub record IsServed (m : Mm) (cs : Cells) (size : ℕ) (p : Ptr) (m' : Mm) (cs' : Cells)
    : Type 0 where
  pub heap : IsHeap m' cs'
  pub live : IsLive m' cs' p size
  pub word : p % 8 ≡ 0
  pub fresh : (k : ℕ) → ¬ IsLive m cs p k
  pub others : (r : Ptr) (k : ℕ) → IsLive m cs r k → IsLive m' cs' r k
  pub nothing_else : (r : Ptr) (k : ℕ) → IsLive m' cs' r k → (r ≡ p) ⊎ IsLive m cs r k
  pub arena : (m'.heap_start ≡ m.heap_start) × (m'.heap_end ≡ m.heap_end)

module _ (m : Mm) (cs : Cells) (size : ℕ) (q : Ptr) (c : Cell) (v : IsHeap m cs)
    (at : CellAt m.heap_start cs q c) (f : Fits (align size) c) where
  abbrev new : Cells
  new = place (align size) m.heap_start cs q

  fresh_block : (k : ℕ) → ¬ IsLive m cs (q + block_header) k
  fresh_block k (d, r, at', e, used, le) =
      let same : r ≡ q = omega arith in
      let at'' : CellAt m.heap_start cs q d = subst (λ x. CellAt m.heap_start cs x d) same at' in
      let eq = CellAt-unique m.heap_start cs q c d at at'' in ground arith

  keeps_others : (r : Ptr) (k : ℕ) → IsLive m cs r k → IsLive (hand_out m (align size) q) new r k
  unfolding hand_out
  keeps_others r k (d, s, at', e, used, le) =
      let apart : s ≢ q = λ same.
        fresh_block k (d, q, subst (λ x. CellAt m.heap_start cs x d) same at', refl, used, le) in
      (d, s, CellAt-place_ne (align size) m.heap_start cs q c s d at f apart at', e, used, le)

  adds_one :
      (r : Ptr) (k : ℕ)
      → IsLive (hand_out m (align size) q) new r k
      → (r ≡ q + block_header) ⊎ IsLive m cs r k
  unfolding hand_out
  adds_one r k (d, s, at', e, used, le) =
      elim (CellAt-place_inv (align size) m.heap_start cs q c s d at f used at') [
        | inl same ↦ inl (omega arith)
        | inr old ↦ inr (d, s, old, e, used, le)
      ]

  hand_out-IsServed :
      size ≤ align size → IsServed m cs size (q + block_header) (hand_out m (align size) q) new
  unfolding hand_out
  hand_out-IsServed le = record {
    heap = hand_out-IsHeap m cs (align size) q c v (align-mod size) at f;
    live = (
      cell (granted (align size) c) false,
      q,
      CellAt-place_self (align size) m.heap_start cs q c at,
      refl,
      refl,
      omega (arith, granted_bounds (align size) c f.1),
    );
    word = omega (arith, CellAt-aligned m.heap_start cs q c v.aligned v.page at);
    fresh = fresh_block;
    others = keeps_others;
    nothing_else = adds_one;
    arena = (refl, refl);
  }

-- `ALIGN` does not wrap below 2 ^ 32 - 7.
pub align-le : (n : ℕ) → n + 7 < 2 ^ 32 → (n ≤ align n) × (align n < n + 8)
align-le n h = omega (arith, align-eq n)

Returned-IsServed :
    (size : ℕ) (m : Mm) (cs : Cells) (o : Option (Ptr × Mm)) (p : Ptr) (m' : Mm)
    → IsHeap m cs
    → size + 7 < 2 ^ 32
    → Returned m cs (align size) o
    → o ≡ some (p, m')
    → p ≢ null
    → (cs' : Cells) × IsServed m cs size p m' cs'
Returned-IsServed size m cs o p m' v small (served {q} {c} at f _) e ne =
    let first : q + block_header ≡ p = ground arith in
    let state : hand_out m (align size) q ≡ m' = ground arith in
    (
      place (align size) m.heap_start cs q,
      subst₂ (λ x y. IsServed m cs size x y (place (align size) m.heap_start cs q)) first state
          (hand_out-IsServed m cs size q c v at f (align-le size small).0),
    )
Returned-IsServed size m cs o p m' v small (refused _) e ne = absurd (ne (ground arith))

pub kmalloc-zero : (m : Mm) → kmalloc 0 m ≡ some (null, m)
unfolding kmalloc
kmalloc-zero m = refl

null_of_zero :
    (size : ℕ) (m : Mm) (p : Ptr) (m' : Mm) → size ≡ 0 → kmalloc size m ≡ some (p, m') → p ≡ null
null_of_zero size m p m' zero_size e =
    let e' : kmalloc 0 m ≡ some (p, m') = rw zero_size at e in ground (arith, kmalloc-zero m)

Returned-IsHeap :
    (size : ℕ) (m : Mm) (cs : Cells) (o : Option (Ptr × Mm))
    → IsHeap m cs
    → Returned m cs (align size) o
    → (p : Ptr) × (m' : Mm) × (cs' : Cells) × (o ≡ some (p, m')) × IsHeap m' cs'
Returned-IsHeap size m cs o v (served {q} {c} at f _) = (
  q + block_header,
  hand_out m (align size) q,
  place (align size) m.heap_start cs q,
  refl,
  hand_out-IsHeap m cs (align size) q c v (align-mod size) at f,
)
Returned-IsHeap size m cs o v (refused _) = (null, m, cs, refl, v)

-- On a well-formed heap `kmalloc` returns for every size, and the heap stays well-formed.
pub kmalloc-IsHeap :
    (size : ℕ) (m : Mm) (cs : Cells)
    → IsHeap m cs
    → (p : Ptr) × (m' : Mm) × (cs' : Cells) × (kmalloc size m ≡ some (p, m')) × IsHeap m' cs'
kmalloc-IsHeap size m cs v = elim (Bool-cases (size == 0)) [
  | inl none_asked ↦
      let zero_size : size ≡ 0 = ground arith in (null, m, cs, rw zero_size (kmalloc-zero m), v)
  | inr asked ↦
      Returned-IsHeap size m cs (kmalloc size m) v (kmalloc_lem size m cs v (ground arith))
]

-- A pointer that `kmalloc` returns on a well-formed heap is a multiple of 8 and heads a block of
-- at least `size` bytes that nobody held; every block that was held is still held, no other block
-- is, and the heap stays well-formed at the same place. (The size is at most 2 ^ 32 - 8.)
pub kmalloc-IsServed :
    (size : ℕ) (m : Mm) (cs : Cells) (p : Ptr) (m' : Mm)
    → IsHeap m cs
    → size + 7 < 2 ^ 32
    → kmalloc size m ≡ some (p, m')
    → p ≢ null
    → (cs' : Cells) × IsServed m cs size p m' cs'
kmalloc-IsServed size m cs p m' v small e ne = elim (Bool-cases (size == 0)) [
  | inl none_asked ↦ absurd (ne (null_of_zero size m p m' (ground arith) e))
  | inr asked ↦
      Returned-IsServed size m cs (kmalloc size m) p m' v small
        (kmalloc_lem size m cs v (ground arith)) e ne
]

Returned-null :
    (m : Mm) (cs : Cells) (n : ℕ) (o : Option (Ptr × Mm))
    → Returned m cs n o
    → (o ≡ some (null, m)) ↔ ((r : Ptr) (d : Cell) → CellAt m.heap_start cs r d → ¬ Fits n d)
Returned-null m cs n o (served {q} {c} at f best) =
    (λ e. absurd (ground arith), λ unfit. absurd (unfit q c at f))
Returned-null m cs n o (refused unfit) = (λ e. unfit, λ _. refl)

-- On a well-formed heap, `kmalloc` of a non-zero size returns null, with the heap unchanged,
-- exactly when no free block holds the size after alignment.
pub kmalloc_null_iff :
    (size : ℕ) (m : Mm) (cs : Cells)
    → IsHeap m cs
    → 0 < size
    → (kmalloc size m ≡ some (null, m))
      ↔ ((r : Ptr) (d : Cell) → CellAt m.heap_start cs r d → ¬ Fits (align size) d)
kmalloc_null_iff size m cs v pos =
    Returned-null m cs (align size) (kmalloc size m) (kmalloc_lem size m cs v pos)

Returned-unchanged :
    (m : Mm) (cs : Cells) (n : ℕ) (o : Option (Ptr × Mm)) (p : Ptr) (m' : Mm)
    → Returned m cs n o
    → o ≡ some (p, m')
    → p ≡ null
    → m' ≡ m
Returned-unchanged m cs n o p m' (served {q} at f _) e z = absurd (ground arith)
Returned-unchanged m cs n o p m' (refused _) e z = ground arith

-- A call that returns null has changed nothing.
pub kmalloc_unchanged :
    (size : ℕ) (m : Mm) (cs : Cells) (p : Ptr) (m' : Mm)
    → IsHeap m cs
    → kmalloc size m ≡ some (p, m')
    → p ≡ null
    → m' ≡ m
kmalloc_unchanged size m cs p m' v e z = elim (Bool-cases (size == 0)) [
  | inl none_asked ↦
      let zero_size : size ≡ 0 = ground arith in
      let e' : kmalloc 0 m ≡ some (p, m') = rw zero_size at e in ground (arith, kmalloc-zero m)
  | inr asked ↦
      Returned-unchanged m cs (align size) (kmalloc size m) p m'
        (kmalloc_lem size m cs v (ground arith)) e z
]
