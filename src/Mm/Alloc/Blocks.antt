-- ===== src/Mm/Alloc/Blocks.antt =====
-- How an allocation changes the list of blocks.
use svetos_kernel.Base.{
  ℕ, ◌+◌, ◌-◌, ◌≤◌, ◌<◌, ◌≡◌, ◌≢◌, ◌⊎◌, inl, inr, true, false, [], ◌∷◌, ◌++◌, ◌%◌, leb, ◌==◌,
  Bool-cases, if◌then◌else◌, subst, sym, ◌∙◌, arith,
}
use svetos_kernel.Mm.{Ptr, block_header, min_block_size}
use svetos_kernel.Mm.Layout.{
  Cell, Cells, cell, after, span, held, CellAt, IsAligned, Fits, carve, place, CellAt-bounds,
}

-- the bytes that a request for `n` gets in the block `c`
unfoldable pub granted : ℕ → Cell → ℕ
granted n c = if leb (block_header + min_block_size) (c.size - n) then n else c.size

pub granted_bounds :
    (n : ℕ) (c : Cell)
    → n ≤ c.size
    → (n ≤ granted n c) × (granted n c < n + 32) × (granted n c ≤ c.size)
unfolding granted
granted_bounds n c h = ground arith

module _ (n : ℕ) where
  pub span-place :
      (p : Ptr) (cs : Cells) (q : Ptr) (c : Cell)
      → CellAt p cs q c
      → n ≤ c.size
      → span (place n p cs q) ≡ span cs
  unfolding place
  span-place p [] q c at h = absurd at
  span-place p (d ∷ cs) q c (inl here) h = ground arith
  span-place p (d ∷ cs) q c (inr at) h =
      let b = CellAt-bounds (after p d) cs q c at in
      ground (arith, span-place (after p d) cs q c at h)

  -- The block in use and its header are charged, nothing else.
  pub held-place :
      (p : Ptr) (cs : Cells) (q : Ptr) (c : Cell)
      → CellAt p cs q c
      → Fits n c
      → held (place n p cs q) ≡ held cs + (block_header + granted n c)
  unfolding place granted
  held-place p [] q c at h = absurd at
  held-place p (d ∷ cs) q c (inl here) h = ground arith
  held-place p (d ∷ cs) q c (inr at) h =
      let b = CellAt-bounds (after p d) cs q c at in
      ground (arith, held-place (after p d) cs q c at h)

  pub IsAligned-place :
      (p : Ptr) (cs : Cells) (q : Ptr) → n % 8 ≡ 0 → IsAligned cs → IsAligned (place n p cs q)
  unfolding place
  IsAligned-place p [] q h al = tt
  IsAligned-place p (d ∷ cs) q h al = ground (arith, IsAligned-place (after p d) cs q h al.1)

  -- The block that is handed out.
  pub CellAt-place_self :
      (p : Ptr) (cs : Cells) (q : Ptr) (c : Cell)
      → CellAt p cs q c
      → CellAt p (place n p cs q) q (cell (granted n c) false)
  unfolding place granted
  CellAt-place_self p [] q c at = absurd at
  CellAt-place_self p (d ∷ cs) q c (inl here) = ground arith
  CellAt-place_self p (d ∷ cs) q c (inr at) =
      let b = CellAt-bounds (after p d) cs q c at in
      ground (arith, CellAt-place_self (after p d) cs q c at)

  -- Behind a block that is cut, the arena goes on as before.
  CellAt-carve :
      (p : Ptr) (e : Cell) (cs : Cells) (r : Ptr) (d : Cell)
      → n ≤ e.size
      → CellAt (after p e) cs r d
      → CellAt p (carve n e ++ cs) r d
  unfolding carve
  CellAt-carve p e cs r d h at = elim (Bool-cases (leb 32 (e.size - n))) [
    | inl cut ↦
        let same : after p e ≡ after (after p (cell n false)) (cell (e.size - n - 16) true) =
          ground arith in
        rw cut (inr (inr (subst (λ s. CellAt s cs r d) same at)))
    | inr whole ↦ rw whole (inr at)
  ]

  CellAt-carve_inv :
      (p : Ptr) (e : Cell) (cs : Cells) (r : Ptr) (d : Cell)
      → n ≤ e.size
      → d.free ≡ false
      → CellAt p (carve n e ++ cs) r d
      → (r ≡ p) ⊎ CellAt (after p e) cs r d
  unfolding carve
  CellAt-carve_inv p e cs r d h f at = elim (Bool-cases (leb 32 (e.size - n))) [
    | inl cut ↦
        let same : after (after p (cell n false)) (cell (e.size - n - 16) true) ≡ after p e =
          ground arith in
        cut_inv same (rw cut at at)
    | inr whole ↦ whole_inv (rw whole at at)
  ]
    where
      cut_inv :
          after (after p (cell n false)) (cell (e.size - n - 16) true) ≡ after p e
          → CellAt p (cell n false ∷ cell (e.size - n - 16) true ∷ cs) r d
          → (r ≡ p) ⊎ CellAt (after p e) cs r d
      cut_inv same (inl here) = inl here.0
      cut_inv same (inr (inl here)) = absurd (ground arith)
      cut_inv same (inr (inr at')) = inr (subst (λ s. CellAt s cs r d) same at')

      whole_inv : CellAt p (cell e.size false ∷ cs) r d → (r ≡ p) ⊎ CellAt (after p e) cs r d
      whole_inv (inl here) = inl here.0
      whole_inv (inr at') = inr at'

  -- Every other block stays where it is.
  pub CellAt-place_ne :
      (p : Ptr) (cs : Cells) (q : Ptr) (c : Cell) (r : Ptr) (d : Cell)
      → CellAt p cs q c
      → Fits n c
      → r ≢ q
      → CellAt p cs r d
      → CellAt p (place n p cs q) r d
  unfolding place
  CellAt-place_ne p [] q c r d at f ne at' = absurd at
  CellAt-place_ne p (e ∷ cs) q c r d (inl here) f ne (inl here') =
      absurd (ne (here'.0 ∙ sym here.0))
  CellAt-place_ne p (e ∷ cs) q c r d (inl here) f ne (inr at') =
      let hit : (p == q) ≡ true = ground arith in
      rw hit (CellAt-carve p e cs r d (ground arith) at')
  CellAt-place_ne p (e ∷ cs) q c r d (inr at) f ne (inl here') =
      let miss : (p == q) ≡ false = ground (arith, CellAt-bounds (after p e) cs q c at) in
      rw miss (inl here')
  CellAt-place_ne p (e ∷ cs) q c r d (inr at) f ne (inr at') =
      let miss : (p == q) ≡ false = ground (arith, CellAt-bounds (after p e) cs q c at) in
      rw miss (inr (CellAt-place_ne (after p e) cs q c r d at f ne at'))

  -- A block in use afterwards is the new one or was there before.
  pub CellAt-place_inv :
      (p : Ptr) (cs : Cells) (q : Ptr) (c : Cell) (r : Ptr) (d : Cell)
      → CellAt p cs q c
      → Fits n c
      → d.free ≡ false
      → CellAt p (place n p cs q) r d
      → (r ≡ q) ⊎ CellAt p cs r d
  unfolding place
  CellAt-place_inv p [] q c r d at' fits f at = absurd at
  CellAt-place_inv p (e ∷ cs) q c r d (inl here) fits f at =
      let hit : (p == q) ≡ true = ground arith in
      at_cut (CellAt-carve_inv p e cs r d (ground arith) f (rw hit at at))
    where
      at_cut : (r ≡ p) ⊎ CellAt (after p e) cs r d → (r ≡ q) ⊎ CellAt p (e ∷ cs) r d
      at_cut (inl e') = inl (e' ∙ sym here.0)
      at_cut (inr at') = inr (inr at')
  CellAt-place_inv p (e ∷ cs) q c r d (inr at') fits f at =
      let miss : (p == q) ≡ false = ground (arith, CellAt-bounds (after p e) cs q c at') in
      later (λ a. CellAt-place_inv (after p e) cs q c r d at' fits f a) (rw miss at at)
    where
      later :
          (CellAt (after p e) (place n (after p e) cs q) r d → (r ≡ q) ⊎ CellAt (after p e) cs r d)
          → CellAt p (e ∷ place n (after p e) cs q) r d
          → (r ≡ q) ⊎ CellAt p (e ∷ cs) r d
      later ih (inl here) = inr (inl here)
      later ih (inr a) = elim (ih a) [ inl e' ↦ inl e' | inr b ↦ inr (inr b) ]
