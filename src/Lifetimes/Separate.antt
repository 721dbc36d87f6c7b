-- ===== src/Lifetimes/Separate.antt =====
-- Over its whole life a client of kernel/src/mm/mm.c holds blocks that have no byte in common.
use svetos_kernel.Base.{
  ℕ, zero, suc, ◌+◌, ◌^◌, ◌≤◌, ◌<◌, ◌≡◌, ◌≢◌, ◌⊎◌, inl, inr, refl, some, List, [], ◌∷◌, ◌==◌, false,
  get_elem?, Option-cases, sym, subst, subst₂, ==-zero, arith,
}
use svetos_kernel.Allocator.{Ptr, null, Allocator}
use svetos_kernel.Mm.{Mm}
use svetos_kernel.Mm.Allocator.{Inv, mm_allocator}
use svetos_kernel.Lifetimes.{
  Blocks, remove, Call, allocate, release, IsSmall, AllSmall, Client, perform, run,
}
use svetos_kernel.Lifetimes.Held.{NotAt, AreDistinct, AreDistinct-remove}

module _ (A : Allocator) where
  abbrev pub AllOwned : A.State → Blocks → Type 0
  AllOwned s [] = Unit
  AllOwned s ((p, n) ∷ bs) = (A.Owned s p n × (0 < n)) × AllOwned s bs

  -- The heap is well-formed, and every block is one that was handed out, at an address of its own.
  pub record IsClient (c : Client A) : Type 0 where
    pub heap : A.Inv c.heap
    pub owned : AllOwned c.heap c.held
    pub distinct : AreDistinct c.held

  AllOwned-elem :
      (s : A.State) (bs : Blocks) (i : ℕ) (p : Ptr) (n : ℕ)
      → AllOwned s bs
      → get_elem? bs i ≡ some (p, n)
      → A.Owned s p n × (0 < n)
  AllOwned-elem s [] i p n o e = absurd (ground arith)
  AllOwned-elem s ((q, m) ∷ bs) zero p n o e =
      let at : q ≡ p = ground arith in
      let size : m ≡ n = ground arith in subst₂ (λ r k. A.Owned s r k × (0 < k)) at size o.0
  AllOwned-elem s ((q, m) ∷ bs) (suc i) p n o e = AllOwned-elem s bs i p n o.1 e

  AllOwned-remove : (s : A.State) (bs : Blocks) (i : ℕ) → AllOwned s bs → AllOwned s (remove i bs)
  AllOwned-remove s [] i o = tt
  AllOwned-remove s ((q, m) ∷ bs) zero o = o.1
  AllOwned-remove s ((q, m) ∷ bs) (suc i) o = (o.0, AllOwned-remove s bs i o.1)

  AllOwned-kept :
      (s s' : A.State) (bs : Blocks)
      → ((r : Ptr) (k : ℕ) → A.Owned s r k → A.Owned s' r k)
      → AllOwned s bs
      → AllOwned s' bs
  AllOwned-kept s s' [] kept o = tt
  AllOwned-kept s s' ((q, m) ∷ bs) kept o =
      ((kept q m o.0.0, o.0.1), AllOwned-kept s s' bs kept o.1)

  -- after a block at `p` is freed that is not among them
  AllOwned-freed :
      (s s' : A.State) (p : Ptr) (bs : Blocks)
      → ((r : Ptr) (k : ℕ) → r ≢ p → A.Owned s r k → A.Owned s' r k)
      → NotAt p bs
      → AllOwned s bs
      → AllOwned s' bs
  AllOwned-freed s s' p [] kept a o = tt
  AllOwned-freed s s' p ((q, m) ∷ bs) kept a o =
      ((kept q m a.0 o.0.0, o.0.1), AllOwned-freed s s' p bs kept a.1 o.1)

  -- A block that nobody had is at no address of the list.
  NotAt-fresh :
      (s : A.State) (p : Ptr) (bs : Blocks)
      → ((k : ℕ) → ¬ A.Owned s p k)
      → AllOwned s bs
      → NotAt p bs
  NotAt-fresh s p [] fresh o = tt
  NotAt-fresh s p ((q, m) ∷ bs) fresh o =
      (λ same. fresh m (subst (λ r. A.Owned s r m) same o.0.0), NotAt-fresh s p bs fresh o.1)

  allocate-IsClient :
      (n : ℕ) (c : Client A)
      → IsClient c
      → 0 < n
      → n + 7 < 2 ^ 32
      → (c' : Client A) × (perform A (allocate n) c ≡ some c') × IsClient c'
  unfolding perform
  allocate-IsClient n c v pos small =
      let (p, s, ran, inv, cases) = A.kmalloc_lem n c.heap v.heap small in
      elim cases [
        | inl (out, same) ↦ (c, rw (ran, out, same) refl, v)
        | inr (got, a) ↦
            let there : (p == null) ≡ false = ==-zero p (omega arith) in
            (
              record { heap = s; held = (p, n) ∷ c.held },
              rw (ran, there) refl,
              record {
                heap = inv;
                owned = ((a.owned, pos), AllOwned-kept c.heap s c.held a.kept v.owned);
                distinct = (NotAt-fresh c.heap p c.held a.fresh v.owned, v.distinct);
              },
            )
      ]

  release-IsClient :
      (i : ℕ) (c : Client A)
      → IsClient c
      → (c' : Client A) × (perform A (release i) c ≡ some c') × IsClient c'
  unfolding perform
  release-IsClient i c v = elim (Option-cases (get_elem? c.held i)) [
    | inl missing ↦ (c, rw missing refl, v)
    | inr ((p, n), here) ↦
        let (o, pos) = AllOwned-elem c.heap c.held i p n v.owned here in
        let (s, ran, inv, r) = A.kfree_lem p n c.heap v.heap o pos in
        let (distinct, a) = AreDistinct-remove c.held i p n v.distinct here in
        (
          record { heap = s; held = remove i c.held },
          rw (here, ran) refl,
          record {
            heap = inv;
            owned =
                AllOwned-freed c.heap s p (remove i c.held) r.kept a
                  (AllOwned-remove c.heap c.held i v.owned);
            distinct = distinct;
          },
        )
  ]

  perform-IsClient :
      (call : Call) (c : Client A)
      → IsClient c
      → IsSmall call
      → (c' : Client A) × (perform A call c ≡ some c') × IsClient c'
  perform-IsClient (allocate n) c v small = allocate-IsClient n c v small.0 small.1
  perform-IsClient (release i) c v small = release-IsClient i c v

  pub run-IsClient :
      (calls : List Call) (c : Client A)
      → IsClient c
      → AllSmall calls
      → (c' : Client A) × (run A calls c ≡ some c') × IsClient c'
  unfolding run
  run-IsClient [] c v small = (c, refl, v)
  run-IsClient (call ∷ calls) c v small =
      let (c1, ran1, v1) = perform-IsClient call c v small.0 in
      let (c2, ran2, v2) = run-IsClient calls c1 v1 small.1 in (c2, rw ran1 ran2, v2)

  -- `p` with `n` bytes has no byte in common with the blocks of the list
  abbrev pub IsApart : Ptr → ℕ → Blocks → Type 0
  IsApart p n [] = Unit
  IsApart p n ((q, m) ∷ bs) = ((p + n ≤ q) ⊎ (q + m ≤ p)) × IsApart p n bs

  -- Every block lies within the arena's side of the address space, apart from those after it.
  abbrev pub AreApart : Blocks → Type 0
  AreApart [] = Unit
  AreApart ((p, n) ∷ bs) = (A.low ≤ p) × (p + n < 2 ^ 32) × IsApart p n bs × AreApart bs

  Owned-IsApart :
      (s : A.State) (p : Ptr) (n : ℕ) (bs : Blocks)
      → A.Owned s p n
      → NotAt p bs
      → AllOwned s bs
      → IsApart p n bs
  Owned-IsApart s p n [] o a all = tt
  Owned-IsApart s p n ((q, m) ∷ bs) o a all = (
    A.Owned-apart p q n m s o all.0.0 (λ same. a.0 (sym same)),
    Owned-IsApart s p n bs o a.1 all.1,
  )

  AllOwned-AreApart : (s : A.State) (bs : Blocks) → AllOwned s bs → AreDistinct bs → AreApart bs
  AllOwned-AreApart s [] o d = tt
  AllOwned-AreApart s ((p, n) ∷ bs) o d = (
    A.Owned-low p n s o.0.0,
    A.Owned-high p n s o.0.0,
    Owned-IsApart s p n bs o.0.0 d.0 o.1,
    AllOwned-AreApart s bs o.1 d.1,
  )

-- On a well-formed heap of the kernel every sequence of calls of `kmalloc`, with sizes from 1 to
-- 2 ^ 32 - 8, and of `kfree`, with blocks held, runs to its end, whatever the order. Afterwards the
-- heap is well-formed at the same place, and the blocks that are held lie behind its start, within
-- the address space and without a byte in common.
pub run-AreApart :
    (start : Ptr) (pos : 0 < start) (calls : List Call) (m : Mm)
    → let A = mm_allocator start pos in
      Inv start pos m
      → AllSmall calls
      → (c : Client A) × (run A calls (record { heap = m; held = [] }) ≡ some c)
        × Inv start pos c.heap
        × AreApart A c.held
run-AreApart start pos calls m inv small =
    let A = mm_allocator start pos in
    let (c, ran, v) =
      run-IsClient A calls (record { heap = m; held = [] })
        (record { heap = inv; owned = tt; distinct = tt }) small in
    (c, ran, v.heap, AllOwned-AreApart A c.heap c.held v.owned v.distinct)
