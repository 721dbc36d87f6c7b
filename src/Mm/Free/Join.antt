-- ===== src/Mm/Free/Join.antt =====
-- Joining free neighbours changes nothing for the blocks in use.
use svetos_kernel.Base.{◌+◌, ◌≡◌, ◌≢◌, refl, true, false, [], ◌∷◌, arith}
use svetos_kernel.Mm.{Ptr, block_header}
use svetos_kernel.Mm.Layout.{Cell, Cells, cell, after, span, held, CellAt, IsAligned, pair_up}

pub span-pair_up : (cs : Cells) → span (pair_up cs) ≡ span cs
unfolding pair_up
span-pair_up [] = refl
span-pair_up (c ∷ []) = refl
span-pair_up (c ∷ d ∷ cs) = ground (arith, span-pair_up cs, span-pair_up (d ∷ cs))

pub held-pair_up : (cs : Cells) → held (pair_up cs) ≡ held cs
unfolding pair_up
held-pair_up [] = refl
held-pair_up (c ∷ []) = refl
held-pair_up (c ∷ d ∷ cs) = ground (arith, held-pair_up cs, held-pair_up (d ∷ cs))

pub IsAligned-pair_up : (cs : Cells) → IsAligned cs → IsAligned (pair_up cs)
unfolding pair_up
IsAligned-pair_up [] al = tt
IsAligned-pair_up (c ∷ []) al = al
IsAligned-pair_up (c ∷ d ∷ cs) al =
    ground (arith, IsAligned-pair_up cs al.1.1, IsAligned-pair_up (d ∷ cs) al.1)

pub pair_up-ne-nil : (cs : Cells) → cs ≢ [] → pair_up cs ≢ []
unfolding pair_up
pair_up-ne-nil [] h = h
pair_up-ne-nil (c ∷ []) h = ground arith
pair_up-ne-nil (c ∷ d ∷ cs) h = ground arith

-- the end of two blocks is the end of the block that they become
same_end :
    (p : Ptr) (c d : Cell)
    → after (after p c) d ≡ after p (cell (c.size + (block_header + d.size)) true)
same_end p c d = omega arith

pub CellAt-pair_up :
    (p : Ptr) (cs : Cells) (r : Ptr) (e : Cell)
    → e.free ≡ false
    → CellAt p cs r e
    → CellAt p (pair_up cs) r e
unfolding pair_up
CellAt-pair_up p [] r e used at = at
CellAt-pair_up p (c ∷ []) r e used at = at
CellAt-pair_up p (c ∷ d ∷ cs) r e used at = ground (
  arith,
  same_end p c d,
  CellAt-pair_up (after p (cell (c.size + (block_header + d.size)) true)) cs r e used,
  CellAt-pair_up (after p c) (d ∷ cs) r e used,
)

pub CellAt-pair_up_inv :
    (p : Ptr) (cs : Cells) (r : Ptr) (e : Cell)
    → e.free ≡ false
    → CellAt p (pair_up cs) r e
    → CellAt p cs r e
unfolding pair_up
CellAt-pair_up_inv p [] r e used at = at
CellAt-pair_up_inv p (c ∷ []) r e used at = at
CellAt-pair_up_inv p (c ∷ d ∷ cs) r e used at = ground (
  arith,
  same_end p c d,
  CellAt-pair_up_inv (after p (cell (c.size + (block_header + d.size)) true)) cs r e used,
  CellAt-pair_up_inv (after p c) (d ∷ cs) r e used,
)
