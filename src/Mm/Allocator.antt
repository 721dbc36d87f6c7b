-- ===== src/Mm/Allocator.antt =====
-- kernel/src/mm/mm.c provides the interface that the rest of the kernel uses.
use svetos_kernel.Base.{
  ℕ, ◌+◌, ◌^◌, ◌≤◌, ◌<◌, ◌%◌, ◌≡◌, ◌≢◌, ◌⊎◌, inl, inr, refl, Option, some, [], ◌∷◌, Bool-cases,
  ◌==◌, ap, ap₂, sym, subst, ◌∙◌, arith,
}
use svetos_kernel.Mm.{Ptr, null, Memory, Mm, block_header, align, kmalloc, kfree, hand_out}
use svetos_kernel.Mm.Layout.{Cell, Cells, CellAt, after, span, place, CellAt-bounds, CellAt-apart}
use svetos_kernel.Mm.Chain.{Chain, IsHeap, IsLive}
use svetos_kernel.Mm.Alloc.Served.{
  IsServed, kmalloc-zero, kmalloc-IsHeap, kmalloc-IsServed, kmalloc_unchanged,
}
use svetos_kernel.Mm.Alloc.{align-mod, hand_out-IsHeap, Returned, served, refused, kmalloc_lem}
use svetos_kernel.Mm.Free.{kfree-IsFreed}
use svetos_kernel.Allocator.{Allocator, Allocated, Released}

-- Memory shows one list of blocks only.
Chain-unique :
    (mem : Memory) (p : Ptr) (cs ds : Cells)
    → Chain mem p cs
    → Chain mem p ds
    → span cs ≡ span ds
    → cs ≡ ds
Chain-unique mem p [] [] c d e = refl
Chain-unique mem p [] (y ∷ ds) c d e = absurd (omega arith)
Chain-unique mem p (x ∷ cs) [] c d e = absurd (omega arith)
Chain-unique mem p (x ∷ cs) (y ∷ ds) c d e =
    let same : x ≡ y = ground arith in
    ap₂ ◌∷◌ same (
      Chain-unique mem (after p x) cs ds c.1 (subst (λ z. Chain mem (after p z) ds) (sym same) d.1)
        (omega (arith, ap (λ (z : Cell). z.size) same)))

pub IsHeap-unique : (m : Mm) (cs ds : Cells) → IsHeap m cs → IsHeap m ds → cs ≡ ds
IsHeap-unique m cs ds v w =
    Chain-unique m.block m.heap_start cs ds v.chain w.chain (omega (arith, v.ends, w.ends))

module _ (start : Ptr) (pos : 0 < start) where
  -- well-formed, with the arena at `start`
  abbrev pub Inv : Mm → Type 0
  Inv m = (cs : Cells) × IsHeap m cs × (m.heap_start ≡ start)

  abbrev pub Owned : Mm → Ptr → ℕ → Type 0
  Owned m p n = (cs : Cells) × IsHeap m cs × (m.heap_start ≡ start) × IsLive m cs p n

  pub serves_one :
      (n : ℕ) (m : Mm) (cs : Cells) (p : Ptr) (m' : Mm) (cs' : Cells)
      → IsHeap m cs
      → m.heap_start ≡ start
      → IsServed m cs n p m' cs'
      → Allocated Owned m n p m'
  serves_one n m cs p m' cs' v e s = record {
    owned = (cs', s.heap, s.arena.0 ∙ e, s.live);
    fresh =
        λ k (ds, w, _, l). s.fresh k (subst (λ z. IsLive m z p k) (IsHeap-unique m ds cs w v) l);
    kept = λ r k (ds, w, _, l). (
      cs',
      s.heap,
      s.arena.0 ∙ e,
      s.others r k (subst (λ z. IsLive m z r k) (IsHeap-unique m ds cs w v) l),
    );
  }

  pub serves :
      (n : ℕ) (m : Mm)
      → Inv m
      → n + 7 < 2 ^ 32
      → (p : Ptr) × (m' : Mm) × (kmalloc n m ≡ some (p, m'))
        × Inv m'
        × (((p ≡ null) × (m' ≡ m)) ⊎ ((p ≢ null) × Allocated Owned m n p m'))
  serves n m (cs, v, e) small =
      let (p, m', cs', ran, v') = kmalloc-IsHeap n m cs v in
      elim (Bool-cases (p == null)) [
        | inl z ↦
            let same : m' ≡ m = kmalloc_unchanged n m cs p m' v ran (ground arith) in
            (p, m', ran, subst Inv (sym same) (cs, v, e), inl (ground arith, same))
        | inr nz ↦
            let ne : p ≢ null = ground arith in
            let (ds, s) = kmalloc-IsServed n m cs p m' v small ran ne in
            (p, m', ran, (ds, s.heap, s.arena.0 ∙ e), inr (ne, serves_one n m cs p m' ds v e s))
      ]

  Returned-Inv :
      (n : ℕ) (m : Mm) (cs : Cells) (o : Option (Ptr × Mm))
      → IsHeap m cs
      → m.heap_start ≡ start
      → n % 8 ≡ 0
      → Returned m cs n o
      → (p : Ptr) × (m' : Mm) × (o ≡ some (p, m')) × Inv m'
  unfolding hand_out
  Returned-Inv n m cs o v e al (served {q} {c} at f _) = (
    q + block_header,
    hand_out m n q,
    refl,
    (place n m.heap_start cs q, hand_out-IsHeap m cs n q c v al at f, e),
  )
  Returned-Inv n m cs o v e al (refused _) = (null, m, refl, (cs, v, e))

  pub returns :
      (n : ℕ) (m : Mm) → Inv m → (p : Ptr) × (m' : Mm) × (kmalloc n m ≡ some (p, m')) × Inv m'
  returns n m (cs, v, e) = elim (Bool-cases (n == 0)) [
    | inl none_asked ↦
        let zero_size : n ≡ 0 = ground arith in (null, m, rw zero_size (kmalloc-zero m), (cs, v, e))
    | inr asked ↦
        Returned-Inv (align n) m cs (kmalloc n m) v e (align-mod n)
          (kmalloc_lem n m cs v (ground arith))
  ]

  -- Blocks that are handed out have no byte in common.
  pub Owned-separate :
      (p r : Ptr) (j k : ℕ) (m : Mm) → Owned m p j → Owned m r k → p ≢ r → (p + j ≤ r) ⊎ (r + k ≤ p)
  Owned-separate p r j k m (cs, v, e, (c, q, at, ep, _, le)) (ds, w, _, (d, t, at', er, _, le'))
        ne =
      let at'' = subst (λ z. CellAt m.heap_start z t d) (IsHeap-unique m ds cs w v) at' in
      let apart = CellAt-apart m.heap_start cs q t c d at at'' (λ x. ne (omega arith)) in
      ground arith

  pub Owned-end : (p : Ptr) (k : ℕ) (m : Mm) → Owned m p k → p + k < 2 ^ 32
  Owned-end p k m (cs, v, e, (c, q, at, ep, _, le)) =
      omega (arith, CellAt-bounds m.heap_start cs q c at, v.ends, v.small)

  pub frees :
      (p : Ptr) (k : ℕ) (m : Mm)
      → Inv m
      → Owned m p k
      → 0 < k
      → (m' : Mm) × (kfree p m ≡ some m') × Inv m' × Released Owned m p m'
  frees p k m _ (cs, v, e, l) pos =
      let (m', cs', ran, f) = kfree-IsFreed m cs p k v l pos in
      (
        m',
        ran,
        (cs', f.heap, f.arena.0 ∙ e),
        record {
          gone = λ j (ds, w, _, l').
              f.gone j (subst (λ z. IsLive m' z p j) (IsHeap-unique m' ds cs' w f.heap) l');
          kept = λ r j ne (ds, w, _, l'). (
            cs',
            f.heap,
            f.arena.0 ∙ e,
            f.others r j ne (subst (λ z. IsLive m z r j) (IsHeap-unique m ds cs w v) l'),
          );
        },
      )

  pub Owned-start : (p : Ptr) (k : ℕ) (m : Mm) → Owned m p k → start ≤ p
  Owned-start p k m (cs, v, e, (c, q, at, e', _, _)) =
      omega (arith, CellAt-bounds m.heap_start cs q c at)

  pub Owned-weaken : (p : Ptr) (j k : ℕ) (m : Mm) → j ≤ k → Owned m p k → Owned m p j
  Owned-weaken p j k m le (cs, v, e, (c, q, at, e', used, le')) =
      (cs, v, e, (c, q, at, e', used, omega arith))

  -- The allocator of the kernel, with its arena at `start`.
  abbrev pub mm_allocator : Allocator
  mm_allocator = record {
    State = Mm;
    kmalloc = kmalloc;
    kfree = kfree;
    Inv = Inv;
    Owned = Owned;
    low = start;
    low_pos = pos;
    kmalloc_lem = serves;
    kmalloc_total = returns;
    kfree_lem = frees;
    Owned-apart = Owned-separate;
    Owned-high = Owned-end;
    Owned-low = Owned-start;
    Owned-le = Owned-weaken;
  }
