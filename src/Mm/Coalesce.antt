-- ===== src/Mm/Coalesce.antt =====
-- The joining loop of `kfree`, against `pair_up`.
use svetos_kernel.Base.{
  ℕ, zero, suc, ◌+◌, ◌<◌, ◌≡◌, inl, inr, refl, true, false, some, [], ◌∷◌, ◌^◌, ◌&&◌, Bool-cases,
  ==-zero, sym, ap, subst, ◌∙◌, length, arith, add32, ◌≢◌,
}
use svetos_kernel.Mm.{Ptr, null, MemBlock, Memory, block_header, update, join, coalesce}
use svetos_kernel.Mm.Layout.{Cell, Cells, cell, after, span, pair_up}
use svetos_kernel.Mm.Chain.{header, link, Chain, Chain-update}

join_last : (mem : Memory) (p : Ptr) (c : Cell) → Chain mem p (c ∷ []) → join mem p ≡ mem
unfolding join
join_last mem p c ch = ground arith

join_apart :
    (mem : Memory) (p : Ptr) (c d : Cell) (cs : Cells)
    → Chain mem p (c ∷ d ∷ cs)
    → (c.free && d.free) ≡ false
    → join mem p ≡ mem
unfolding join
join_apart mem p c d cs ch apart = ground arith

-- the block that two free neighbours become
abbrev both : Cell → Cell → Cell
both c d = cell (c.size + (block_header + d.size)) true

join_pair :
    (mem : Memory) (p : Ptr) (c d : Cell) (cs : Cells)
    → 0 < p
    → p + span (c ∷ d ∷ cs) < 2 ^ 32
    → Chain mem p (c ∷ d ∷ cs)
    → (c.free && d.free) ≡ true
    → join mem p ≡ update mem p (header (both c d).size (link (after p (both c d)) cs) true)
unfolding join
join_pair mem p c d cs pos small ch free =
    let here : mem p ≡ header c.size (after p c) true = ground arith in
    let there : mem (after p c) ≡ header d.size (link (after (after p c) d) cs) true =
      ground arith in
    let same : after (after p c) d ≡ after p (both c d) = omega arith in
    let sum : add32 c.size (add32 block_header d.size) ≡ (both c d).size = omega arith in
    rw (here, there, ==-zero (after p c) (omega arith), sum, same)

update_self : (mem : Memory) (p : Ptr) (b : MemBlock) → update mem p b p ≡ b
unfolding update
update_self mem p b = ground arith

update_ne : (mem : Memory) (p a : Ptr) (b : MemBlock) → a ≢ p → update mem p b a ≡ mem a
unfolding update
update_ne mem p a b ne = ground arith

-- one round on a block that has a neighbour
coalesce-suc :
    (fuel : ℕ) (mem : Memory) (p : Ptr)
    → 0 < p
    → coalesce (suc fuel) mem p ≡ coalesce fuel (join mem p) (join mem p p).next
unfolding coalesce
coalesce-suc fuel mem p pos = rw (==-zero p pos)

coalesce-null : (fuel : ℕ) (mem : Memory) → coalesce (suc fuel) mem null ≡ some mem
unfolding coalesce
coalesce-null fuel mem = refl

link-pair_up : (s : Ptr) (c : Cell) (cs : Cells) → link s (pair_up (c ∷ cs)) ≡ s
unfolding pair_up
link-pair_up s c [] = refl
link-pair_up s c (d ∷ cs) = ground arith

link-pair_up_same : (s : Ptr) (cs : Cells) → link s (pair_up cs) ≡ link s cs
unfolding pair_up
link-pair_up_same s [] = refl
link-pair_up_same s (c ∷ cs) = link-pair_up s c cs

-- From the blocks at `p` on, the loop ends and joins them as `pair_up` does, and it writes nowhere
-- else.
pub coalesce-pair_up :
    (fuel : ℕ) (mem : Memory) (p : Ptr) (cs : Cells)
    → length cs < fuel
    → 0 < p
    → p + span cs < 2 ^ 32
    → Chain mem p cs
    → (mem' : Memory) × (coalesce fuel mem (link p cs) ≡ some mem')
      × Chain mem' p (pair_up cs)
      × ((a : Ptr) → a < p → mem' a ≡ mem a)
unfolding pair_up
coalesce-pair_up zero mem p cs lt pos small ch = absurd (omega arith)
coalesce-pair_up (suc fuel) mem p [] lt pos small ch =
    (mem, coalesce-null fuel mem, tt, λ a lt'. refl)
coalesce-pair_up (suc zero) mem p (c ∷ []) lt pos small ch = absurd (omega arith)
coalesce-pair_up (suc (suc fuel)) mem p (c ∷ []) lt pos small ch = (
  mem,
  rw (coalesce-suc (suc fuel) mem p pos, join_last mem p c ch, ch.0) (coalesce-null fuel mem),
  ch,
  λ a lt'. refl,
)
coalesce-pair_up (suc fuel) mem p (c ∷ d ∷ cs) lt pos small ch =
    elim (Bool-cases (c.free && d.free)) [
      | inl free ↦
          let b = header (both c d).size (link (after p (both c d)) cs) true in
          let joined : join mem p ≡ update mem p b = join_pair mem p c d cs pos small ch free in
          let same_end : after (after p c) d ≡ after p (both c d) = omega arith in
          let rest : Chain (update mem p b) (after p (both c d)) cs =
            Chain-update mem p (after p (both c d)) b cs (omega arith)
              (subst (λ s. Chain mem s cs) same_end ch.1.1) in
          let (mem', e, ch', same) =
            coalesce-pair_up fuel (update mem p b) (after p (both c d)) cs (omega arith)
              (omega arith) (omega arith) rest in
          (
            mem',
            rw (coalesce-suc fuel mem p pos, joined, update_self mem p b) e,
            rw free (
              same p (omega arith)
                  ∙ update_self mem p b
                  ∙ ap (λ s. header (both c d).size s true)
                      (sym (link-pair_up_same (after p (both c d)) cs)),
              ch',
            ),
            λ a lt'. same a (omega arith) ∙ update_ne mem p a b (omega arith),
          )
      | inr apart ↦
          let (mem', e, ch', same) =
            coalesce-pair_up fuel mem (after p c) (d ∷ cs) (omega arith) (omega arith) (omega arith)
              ch.1 in
          (
            mem',
            rw (coalesce-suc fuel mem p pos, join_apart mem p c d cs ch apart, ch.0) e,
            rw apart (
              same p (omega arith)
                  ∙ ch.0
                  ∙ ap (λ s. header c.size s c.free) (sym (link-pair_up (after p c) d cs)),
              ch',
            ),
            λ a lt'. same a (omega arith),
          )
    ]
