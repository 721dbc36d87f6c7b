-- ===== src/Mm/Free/Mark.antt =====
-- Marking a block free: the list of blocks, and the chain in memory.
use svetos_kernel.Base.{
  ◌+◌, ◌<◌, ◌≡◌, ◌≢◌, inl, inr, refl, true, false, [], ◌∷◌, ◌==◌, sym, ap, ◌∙◌, length, arith,
}
use svetos_kernel.Mm.{Ptr, Memory, block_header, update}
use svetos_kernel.Mm.Layout.{Cell, Cells, after, span, held, CellAt, IsAligned, mark, CellAt-bounds}
use svetos_kernel.Mm.Chain.{header, link, Chain, Chain-update}

pub span-mark : (p : Ptr) (cs : Cells) (q : Ptr) → span (mark p cs q) ≡ span cs
unfolding mark
span-mark p [] q = refl
span-mark p (c ∷ cs) q = ground (arith, span-mark (after p c) cs q)

pub length-mark : (p : Ptr) (cs : Cells) (q : Ptr) → length (mark p cs q) ≡ length cs
unfolding mark
length-mark p [] q = refl
length-mark p (c ∷ cs) q = ground (arith, length-mark (after p c) cs q)

pub IsAligned-mark : (p : Ptr) (cs : Cells) (q : Ptr) → IsAligned cs → IsAligned (mark p cs q)
unfolding mark
IsAligned-mark p [] q al = tt
IsAligned-mark p (c ∷ cs) q al = ground (arith, IsAligned-mark (after p c) cs q al.1)

pub held-mark :
    (p : Ptr) (cs : Cells) (q : Ptr) (c : Cell)
    → CellAt p cs q c
    → c.free ≡ false
    → held (mark p cs q) + (block_header + c.size) ≡ held cs
unfolding mark
held-mark p [] q c at used = absurd at
held-mark p (d ∷ cs) q c (inl here) used = ground arith
held-mark p (d ∷ cs) q c (inr at) used =
    ground (arith, CellAt-bounds (after p d) cs q c at, held-mark (after p d) cs q c at used)

-- A block in use afterwards is another one that was in use before.
pub CellAt-mark_inv :
    (p : Ptr) (cs : Cells) (q r : Ptr) (d : Cell)
    → d.free ≡ false
    → CellAt p (mark p cs q) r d
    → (r ≢ q) × CellAt p cs r d
unfolding mark
CellAt-mark_inv p [] q r d used at = absurd at
CellAt-mark_inv p (c ∷ cs) q r d used at =
    ground (arith, CellAt-bounds (after p c) cs r d, CellAt-mark_inv (after p c) cs q r d used)

pub CellAt-mark_ne :
    (p : Ptr) (cs : Cells) (q r : Ptr) (d : Cell)
    → r ≢ q
    → CellAt p cs r d
    → CellAt p (mark p cs q) r d
unfolding mark
CellAt-mark_ne p [] q r d ne at = absurd at
CellAt-mark_ne p (c ∷ cs) q r d ne (inl here) = ground arith
CellAt-mark_ne p (c ∷ cs) q r d ne (inr at) =
    ground (arith, CellAt-mark_ne (after p c) cs q r d ne at)

link-mark : (s p : Ptr) (cs : Cells) (q : Ptr) → link s (mark p cs q) ≡ link s cs
unfolding mark
link-mark s p [] q = refl
link-mark s p (c ∷ cs) q = ground arith

marked :
    (mem : Memory) (p q : Ptr) (d : Cell) (s : Ptr)
    → q ≡ p
    → mem p ≡ header d.size s d.free
    → update mem q (record (mem q) { free = true }) p ≡ header d.size s true
unfolding update
marked mem p q d s e h = ground arith

skipped :
    (mem : Memory) (p q : Ptr) → p < q → update mem q (record (mem q) { free = true }) p ≡ mem p
unfolding update
skipped mem p q lt = ground arith

-- The write of `block->free` leaves a chain.
pub Chain-mark :
    (mem : Memory) (p : Ptr) (cs : Cells) (q : Ptr) (c : Cell)
    → CellAt p cs q c
    → Chain mem p cs
    → Chain (update mem q (record (mem q) { free = true })) p (mark p cs q)
unfolding mark
Chain-mark mem p [] q c at ch = absurd at
Chain-mark mem p (d ∷ cs) q c (inl here) ch =
    let hit : (p == q) ≡ true = ground arith in
    rw hit (
      marked mem p q d (link (after p d) cs) here.0 ch.0,
      Chain-update mem q (after p d) (record (mem q) { free = true }) cs (omega arith) ch.1,
    )
Chain-mark mem p (d ∷ cs) q c (inr at) ch =
    let miss : (p == q) ≡ false = ground (arith, CellAt-bounds (after p d) cs q c at) in
    rw miss (
      skipped mem p q (omega (arith, CellAt-bounds (after p d) cs q c at))
          ∙ ch.0
          ∙ ap (λ s. header d.size s d.free) (sym (link-mark (after p d) (after p d) cs q)),
      Chain-mark mem (after p d) cs q c at ch.1,
    )
