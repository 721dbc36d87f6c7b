-- ===== src/InitrdFs/Read.antt =====
-- Which bytes of the disk `initrd_read` copies.
use svetos_kernel.Base.{
  ℕ, zero, suc, ◌+◌, ◌-◌, ◌*◌, ◌/◌, ◌%◌, ◌≤◌, ◌<◌, ◌≡◌, refl, true, some, List, [], ◌∷◌, take, drop,
  get_or, length, ap, ◌∙◌, length-take, arith,
}
use svetos_kernel.InitrdFs.{SectorRead, copy_size, initrd_read}

get_or-take : (n i : ℕ) (xs : List ℕ) → i < n → get_or (take n xs) i 0 ≡ get_or xs i 0
get_or-take zero i xs lt = absurd (omega arith)
get_or-take (suc n) i [] lt = refl
get_or-take (suc n) zero (x ∷ xs) lt = refl
get_or-take (suc n) (suc i) (x ∷ xs) lt = get_or-take n i xs (omega arith)

get_or-drop : (n i : ℕ) (xs : List ℕ) → get_or (drop n xs) i 0 ≡ get_or xs (i + n) 0
get_or-drop zero i xs = let shift : i + 0 ≡ i = omega arith in rw shift
get_or-drop (suc n) i [] = refl
get_or-drop (suc n) i (x ∷ xs) =
    let shift : i + suc n ≡ suc (i + n) = omega arith in rw shift (get_or-drop n i xs)

length-drop : (n : ℕ) (xs : List ℕ) → length (drop n xs) ≡ length xs - n
length-drop zero xs = omega arith
length-drop (suc n) [] = omega arith
length-drop (suc n) (x ∷ xs) = omega (arith, length-drop n xs)

-- A read of one sector on a disk that holds the bytes `image`.
pub record Holds (State : Type 0) (image : ℕ → ℕ) (read : SectorRead State) : Type 0 where
  pub sector :
      (lba : ℕ) (s : State)
      → (bytes : List ℕ) × (s' : State) × (read lba 1 s ≡ (true, bytes, s'))
        × (length bytes ≡ 512)
        × ((i : ℕ) → i < 512 → get_or bytes i 0 ≡ image (512 * lba + i))

-- What `initrd_read` makes of the sector that it reads, wherever that sector is from.
pub initrd_read-sector :
    (State : Type 0) (image : ℕ → ℕ) (read : SectorRead State) (size offset : ℕ) (s : State)
    (sector : List ℕ) (s' : State)
    → read (1 + offset / 512) 1 s ≡ (true, sector, s')
    → length sector ≡ 512
    → ((i : ℕ) → i < 512 → get_or sector i 0 ≡ image (512 * (1 + offset / 512) + i))
    → (bytes : List ℕ) × (initrd_read State (some (record { read = some read })) size offset s
        ≡ (some bytes, s'))
      × (length bytes ≤ size)
      × (0 < size → 0 < length bytes)
      × ((i : ℕ) → i < length bytes → get_or bytes i 0 ≡ image (512 + offset + i))
unfolding initrd_read
initrd_read-sector State image read size offset s sector s' ran long holds =
    let n = copy_size State size offset in
    let bytes = take n (drop (offset % 512) sector) in
    let facts : (n ≤ size) × (n ≤ 512 - offset % 512) × (0 < size → 0 < n) =
      (ground arith, ground arith, ground arith) in
    let long' : length bytes ≡ n =
      omega
        (arith, length-take n (drop (offset % 512) sector), length-drop (offset % 512) sector) in
    (
      bytes,
      rw ran,
      omega (arith, facts.0),
      λ pos. omega (arith, facts.2 pos),
      λ i lt.
          get_or-take n i (drop (offset % 512) sector) (omega arith)
          ∙ get_or-drop (offset % 512) i sector
          ∙ holds (i + offset % 512) (omega (arith, facts.1))
          ∙ ap image (omega arith),
    )

-- With a storage that holds `image`, a read succeeds and copies no more than `size` bytes, at least
-- one if any is wanted, and they are those of the image from the offset behind the boot sector.
pub initrd_read_lem :
    (State : Type 0) (image : ℕ → ℕ) (read : SectorRead State) (size offset : ℕ) (s : State)
    → Holds State image read
    → (bytes : List ℕ) × (s' : State) × (initrd_read State
          (some (record { read = some read }))
          size
          offset
          s
        ≡ (some bytes, s'))
      × (length bytes ≤ size)
      × (0 < size → 0 < length bytes)
      × ((i : ℕ) → i < length bytes → get_or bytes i 0 ≡ image (512 + offset + i))
initrd_read_lem State image read size offset s h =
    let (sector, s', ran, long, holds) = h.sector (1 + offset / 512) s in
    let (bytes, e, short, some_byte, at) =
      initrd_read-sector State image read size offset s sector s' ran long holds in
    (bytes, s', e, short, some_byte, at)
