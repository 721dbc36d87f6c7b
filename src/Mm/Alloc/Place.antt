-- ===== src/Mm/Alloc/Place.antt =====
-- The writes of `kmalloc` leave a chain for the changed list of blocks.
use svetos_kernel.Base.{
  ℕ, ◌+◌, ◌-◌, ◌≤◌, ◌<◌, ◌≡◌, ◌⊎◌, inl, inr, refl, true, false, [], ◌∷◌, ◌++◌, ◌^◌, leb, ◌==◌,
  Bool-cases, subst, sym, ap, ◌∙◌, arith,
}
use svetos_kernel.Mm.{Ptr, Memory, block_header, block_magic, update, split}
use svetos_kernel.Mm.Layout.{
  Cell, Cells, cell, after, span, CellAt, Fits, carve, place, CellAt-bounds,
}
use svetos_kernel.Mm.Alloc.Blocks.{granted}
use svetos_kernel.Mm.Chain.{header, link, Chain, Chain-frame, Chain-at}

-- memory after the split and the write of `best_fit->free`
abbrev pub settle : Memory → ℕ → Ptr → Memory
settle mem n q = update (split mem n q) q (record (split mem n q q) { free = false })

module _ (mem : Memory) (n : ℕ) (q : Ptr) (c : Cell) (f : Fits n c)
    (small : q + block_header + c.size < 2 ^ 32) (sized : (mem q).size ≡ c.size) where
  -- `remaining >= sizeof(mem_block_t) + MIN_BLOCK_SIZE`
  abbrev Cut : Type 0
  Cut = leb 32 (c.size - n) ≡ true

  settle-cut_self :
      Cut → (mem q).magic ≡ block_magic → settle mem n q q ≡ header n (q + 16 + n) false
  unfolding split update
  settle-cut_self cut m = ground arith

  settle-cut_rest : Cut → settle mem n q (q + 16 + n) ≡ header (c.size - n - 16) (mem q).next true
  unfolding split update
  settle-cut_rest cut = ground arith

  settle-whole_self :
      leb 32 (c.size - n) ≡ false
      → (mem q).magic ≡ block_magic
      → settle mem n q q ≡ header c.size (mem q).next false
  unfolding split update
  settle-whole_self whole m = ground arith

  settle_elsewhere : (a : Ptr) → (a < q) ⊎ (q + 16 + c.size ≤ a) → settle mem n q a ≡ mem a
  unfolding split update
  settle_elsewhere a out = ground arith

  -- the size of the block that is handed out
  pub split-granted : (split mem n q q).size ≡ granted n c
  unfolding split update granted
  split-granted = ground arith

Chain-carve :
    (mem : Memory) (n : ℕ) (q : Ptr) (c : Cell) (cs : Cells)
    → Fits n c
    → q + span (c ∷ cs) < 2 ^ 32
    → Chain mem q (c ∷ cs)
    → Chain (settle mem n q) q (carve n c ++ cs)
unfolding carve
Chain-carve mem n q c cs f small ch =
    let sized : (mem q).size ≡ c.size = ground arith in
    let marked : (mem q).magic ≡ block_magic = ground arith in
    let next : (mem q).next ≡ link (after q c) cs = ground arith in
    let fits : q + block_header + c.size < 2 ^ 32 = omega arith in
    let rest : Chain (settle mem n q) (after q c) cs =
      Chain-frame (after q c) cs
        (λ a l h. settle_elsewhere mem n q c f fits sized a (inr (omega arith))) ch.1 in
    elim (Bool-cases (leb 32 (c.size - n))) [
      | inl cut ↦
          let same : after q c ≡ after (after q (cell n false)) (cell (c.size - n - 16) true) =
            ground arith in
          rw cut (
            settle-cut_self mem n q c f fits sized cut marked,
            (
              settle-cut_rest mem n q c f fits sized cut
                  ∙ ap (λ x. header (c.size - n - 16) x true) (next ∙ ap (λ s. link s cs) same),
              subst (λ s. Chain (settle mem n q) s cs) same rest,
            ),
          )
      | inr whole ↦ rw whole (
        settle-whole_self mem n q c f fits sized whole marked
            ∙ ap (λ x. header c.size x false) next,
        rest,
      )
    ]

link-place :
    (n : ℕ) (p : Ptr) (cs : Cells) (q : Ptr) (s : Ptr) → link s (place n p cs q) ≡ link s cs
unfolding place carve
link-place n p [] q s = refl
link-place n p (c ∷ cs) q s = ground arith

-- Allocating in the block at `q` leaves a chain of the blocks that `place` gives.
pub Chain-place :
    (mem : Memory) (n : ℕ) (p : Ptr) (cs : Cells) (q : Ptr) (c : Cell)
    → CellAt p cs q c
    → Fits n c
    → p + span cs < 2 ^ 32
    → Chain mem p cs
    → Chain (settle mem n q) p (place n p cs q)
unfolding place
Chain-place mem n p [] q c at f small ch = absurd at
Chain-place mem n p (d ∷ cs) q c (inl here) f small ch =
    let hit : (p == q) ≡ true = ground arith in
    rw hit (
      subst (λ x. Chain (settle mem n x) p (carve n d ++ cs)) (sym here.0)
        (Chain-carve mem n p d cs (ground arith) small ch))
Chain-place mem n p (d ∷ cs) q c (inr at) f small ch =
    let miss : (p == q) ≡ false = ground (arith, CellAt-bounds (after p d) cs q c at) in
    let found = Chain-at mem (after p d) cs q c ch.1 at in
    let bounds = CellAt-bounds (after p d) cs q c at in
    rw miss (
      settle_elsewhere mem n q c f (omega arith) found.0 p (inl (omega arith))
          ∙ ch.0
          ∙ ap (λ x. header d.size x d.free) (sym (link-place n (after p d) cs q (after p d))),
      Chain-place mem n (after p d) cs q c at f (omega arith) ch.1,
    )
