-- ===== src/InitrdFs/Tests.antt =====
-- A disk whose byte at `i` is `i % 256`.
use svetos_kernel.Base.{
  ℕ, zero, suc, ◌+◌, ◌*◌, ◌%◌, ◌<◌, ◌≡◌, ◌↔◌, Option, refl, true, some, List, [], ◌∷◌, get_or,
  length, ap, ◌∙◌, arith,
}
use svetos_kernel.InitrdFs as Improved
use svetos_kernel.InitrdFs.Same.{initrd_list-overruns}
use svetos_kernel.InitrdFs.{SectorRead, initrd_read}
use svetos_kernel.InitrdFs.Read.{Holds}

abbrev image : ℕ → ℕ
image i = i % 256

-- the `n` bytes from `i`
abbrev bytes_from : ℕ → ℕ → List ℕ
bytes_from zero i = []
bytes_from (suc n) i = image i ∷ bytes_from n (i + 1)

bytes_from-length : (n i : ℕ) → length (bytes_from n i) ≡ n
bytes_from-length zero i = refl
bytes_from-length (suc n) i = ap suc (bytes_from-length n (i + 1))

bytes_from-at : (n i j : ℕ) → j < n → get_or (bytes_from n i) j 0 ≡ image (i + j)
bytes_from-at zero i j lt = absurd (omega arith)
bytes_from-at (suc n) i zero lt = ap image (omega arith)
bytes_from-at (suc n) i (suc j) lt =
    bytes_from-at n (i + 1) j (omega arith) ∙ ap image (omega arith)

abbrev read : SectorRead (List ℕ)
read lba count s = (true, bytes_from 512 (512 * lba), lba ∷ s)

read-Holds : Holds (List ℕ) image read
read-Holds = record {
  sector = λ lba s. (
    bytes_from 512 (512 * lba),
    lba ∷ s,
    refl,
    bytes_from-length 512 (512 * lba),
    bytes_from-at 512 (512 * lba),
  );
}

initrd_list-overruns_example :
    (42 < length (Improved.initrd_list Improved.file_list 42).1 ↔ 42 ≡ length Improved.file_list)
    × (42 < length Improved.file_list → Improved.initrd_list Improved.file_list 42 ≡ (0, []))
initrd_list-overruns_example = initrd_list-overruns Improved.file_list 42

abbrev storage : Option (Improved.Storage (List ℕ))
storage = some (record { read = some read })
