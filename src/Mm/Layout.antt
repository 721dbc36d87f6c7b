-- ===== src/Mm/Layout.antt =====
-- The arena as the list of its blocks in address order, without memory or pointers.
use svetos_kernel.Base.{
  ℕ, ◌+◌, ◌-◌, ◌%◌, ◌≤◌, ◌≡◌, ◌≢◌, ◌⊎◌, inl, inr, Bool, true, false, ◌&&◌, List, [], ◌∷◌, ◌++◌,
  length, leb, ◌==◌, if◌then◌else◌, arith,
}
use svetos_kernel.Mm.{Ptr, block_header, min_block_size}

pub record Cell : Type 0 where
  pub size : ℕ
  pub free : Bool

abbrev pub Cells : Type 0
Cells = List Cell

abbrev pub cell : ℕ → Bool → Cell
cell n f = record { size = n; free = f }

-- the address just past a block
abbrev pub after : Ptr → Cell → Ptr
after p c = p + block_header + c.size

-- bytes from the first header to the end of the last block
abbrev pub span : Cells → ℕ
span [] = 0
span (c ∷ cs) = block_header + c.size + span cs

-- bytes of the blocks in use, headers included
abbrev pub held : Cells → ℕ
held [] = 0
held (c ∷ cs) = (if c.free then 0 else block_header + c.size) + held cs

-- `c` is the block whose header stands at `q`, in the arena `cs` from `p` on
abbrev pub CellAt : Ptr → Cells → Ptr → Cell → Type 0
CellAt p [] q c = ⊥
CellAt p (d ∷ cs) q c = ((q ≡ p) × (c ≡ d)) ⊎ CellAt (after p d) cs q c

abbrev pub IsAligned : Cells → Type 0
IsAligned [] = Unit {0}
IsAligned (c ∷ cs) = (c.size % 8 ≡ 0) × IsAligned cs

-- a free block that holds `n` bytes
abbrev pub Fits : ℕ → Cell → Type 0
Fits n c = (c.free ≡ true) × (n ≤ c.size)

-- the block in use, and what is left of it if that can hold a block
unfoldable pub carve : ℕ → Cell → Cells
carve n c =
    if leb (block_header + min_block_size) (c.size - n)
    then cell n false ∷ cell (c.size - n - block_header) true ∷ []
    else cell c.size false ∷ []

-- allocates `n` bytes in the block at `q`
unfoldable pub place : ℕ → Ptr → Cells → Ptr → Cells
unfolding carve
place n p [] q = []
place n p (c ∷ cs) q = if p == q then carve n c ++ cs else c ∷ place n (after p c) cs q

-- marks the block at `q` free
unfoldable pub mark : Ptr → Cells → Ptr → Cells
mark p [] q = []
mark p (c ∷ cs) q = if p == q then cell c.size true ∷ cs else c ∷ mark (after p c) cs q

-- one pass of joining: a pair of free neighbours becomes one block, which is not looked at again
unfoldable pub pair_up : Cells → Cells
pair_up [] = []
pair_up (c ∷ []) = c ∷ []
pair_up (c ∷ d ∷ cs) =
    if c.free && d.free
    then cell (c.size + (block_header + d.size)) true ∷ pair_up cs
    else c ∷ pair_up (d ∷ cs)

pub CellAt-bounds :
    (p : Ptr) (cs : Cells) (q : Ptr) (c : Cell)
    → CellAt p cs q c
    → (p ≤ q) × (q + block_header + c.size ≤ p + span cs)
CellAt-bounds p [] q c at = absurd at
CellAt-bounds p (d ∷ cs) q c (inl here) = ground arith
CellAt-bounds p (d ∷ cs) q c (inr at) = omega (arith, CellAt-bounds (after p d) cs q c at)

-- An address holds one block at most.
pub CellAt-unique :
    (p : Ptr) (cs : Cells) (q : Ptr) (c d : Cell) → CellAt p cs q c → CellAt p cs q d → c ≡ d
CellAt-unique p [] q c d at at' = absurd at
CellAt-unique p (e ∷ cs) q c d (inl here) (inl here') = ground arith
CellAt-unique p (e ∷ cs) q c d (inl here) (inr at') =
    absurd (omega (arith, CellAt-bounds (after p e) cs q d at'))
CellAt-unique p (e ∷ cs) q c d (inr at) (inl here') =
    absurd (omega (arith, CellAt-bounds (after p e) cs q c at))
CellAt-unique p (e ∷ cs) q c d (inr at) (inr at') = CellAt-unique (after p e) cs q c d at at'

-- Two blocks have no byte in common.
pub CellAt-apart :
    (p : Ptr) (cs : Cells) (q r : Ptr) (c d : Cell)
    → CellAt p cs q c
    → CellAt p cs r d
    → q ≢ r
    → (after q c ≤ r) ⊎ (after r d ≤ q)
CellAt-apart p [] q r c d at at' ne = absurd at
CellAt-apart p (e ∷ cs) q r c d (inl here) (inl here') ne = absurd (ne (omega arith))
CellAt-apart p (e ∷ cs) q r c d (inl here) (inr at') ne =
    let b = CellAt-bounds (after p e) cs r d at' in inl (ground arith)
CellAt-apart p (e ∷ cs) q r c d (inr at) (inl here') ne =
    let b = CellAt-bounds (after p e) cs q c at in inr (ground arith)
CellAt-apart p (e ∷ cs) q r c d (inr at) (inr at') ne =
    CellAt-apart (after p e) cs q r c d at at' ne

pub CellAt-aligned :
    (p : Ptr) (cs : Cells) (q : Ptr) (c : Cell)
    → IsAligned cs
    → p % 8 ≡ 0
    → CellAt p cs q c
    → (q % 8 ≡ 0) × (c.size % 8 ≡ 0)
CellAt-aligned p [] q c al e at = absurd at
CellAt-aligned p (d ∷ cs) q c al e (inl here) = ground arith
CellAt-aligned p (d ∷ cs) q c al e (inr at) =
    CellAt-aligned (after p d) cs q c al.1 (omega arith) at

pub held-le-span : (cs : Cells) → held cs ≤ span cs
held-le-span [] = omega arith
held-le-span (c ∷ cs) = ground (arith, held-le-span cs)

pub length-le-span : (cs : Cells) → length cs ≤ span cs
length-le-span [] = omega arith
length-le-span (c ∷ cs) = omega (arith, length-le-span cs)
