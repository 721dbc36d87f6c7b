-- ===== src/InitrdFs/Same.antt =====
-- How the file systems initrd_fs_improved.c and initrd_fs_module.c of modules/sys/fs/initrd_fs
-- compare, and what a listing writes.
use svetos_kernel.Base.{
  ℕ, ◌<◌, ◌≡◌, ◌↔◌, inl, inr, refl, none, some, Option, List, [], ◌∷◌, length, length-append, leb,
  Bool-cases, arith,
}
use svetos_kernel.InitrdFs as Improved
use svetos_kernel.InitrdFs.Module as Module
use svetos_kernel.InitrdFs.{SectorRead, Storage}

read-same :
    (S : Type 0) (storage : Option (Storage S)) (size offset : ℕ) (s : S)
    → Module.initrd_read S storage size offset s ≡ Improved.initrd_read S storage size offset s
unfolding Module.initrd_read Improved.initrd_read
read-same S none size offset s = refl
read-same S (some storage) size offset s = from storage.read
  where
    from :
        (r : Option (SectorRead S))
        → Module.read_from S size offset r s ≡ Improved.read_from S size offset r s
    from none = refl
    from (some read) = refl

mount-same :
    (S : Type 0) (storage : Option (Storage S)) (device d : ℕ) (s : S)
    → let (result, fs) =
        Module.initrd_mount S storage device (record { storage_device = d; machine = s }) in
      let (result', fs') =
        Improved.initrd_mount S storage device (record { storage_device = d; machine = s }) in
      (result ≡ result') × (fs.storage_device ≡ fs'.storage_device) × (fs.machine ≡ fs'.machine)
unfolding Module.initrd_mount Improved.initrd_mount
mount-same S none device d s = (refl, refl, refl)
mount-same S (some storage) device d s = (refl, refl, from storage.read)
  where
    from : (r : Option (SectorRead S)) → Module.test_read S r s ≡ Improved.test_read S r s
    from none = refl
    from (some read) = refl

-- The two file systems mount and read alike, on every storage and in every state, and list alike
-- but for their lists of files.
pub file_systems-same :
    (S : Type 0) (storage : Option (Storage S)) (device d size offset : ℕ) (s : S)
    → (let (result, fs) =
          Module.initrd_mount S storage device (record { storage_device = d; machine = s }) in
        let (result', fs') =
          Improved.initrd_mount S storage device (record { storage_device = d; machine = s }) in
        (result ≡ result') × (fs.storage_device ≡ fs'.storage_device) × (fs.machine ≡ fs'.machine))
      × (Module.initrd_read S storage size offset s ≡ Improved.initrd_read S storage size offset s)
      × (Module.initrd_list size ≡ Improved.initrd_list Module.file_list size)
unfolding Module.initrd_list Improved.initrd_list
file_systems-same S storage device d size offset s =
    (mount-same S storage device d s, read-same S storage size offset s, refl)

-- A listing of a list of files leaves the buffer exactly when the buffer has as many bytes as the
-- list: then the final zero lies behind it. A smaller buffer is refused, with nothing copied.
pub initrd_list-overruns :
    (file_list : List ℕ) (buffer_size : ℕ)
    → (buffer_size < length (Improved.initrd_list file_list buffer_size).1
        ↔ buffer_size ≡ length file_list)
      × (buffer_size < length file_list → Improved.initrd_list file_list buffer_size ≡ (0, []))
unfolding Improved.initrd_list
initrd_list-overruns file_list buffer_size =
    let long = length-append file_list (0 ∷ []) in
    elim (Bool-cases (leb (length file_list) buffer_size)) [
      | inl room ↦
          rw room ((λ over. ground arith, λ exact. ground arith), λ small. absurd (ground arith))
      | inr less ↦
          rw less ((λ over. absurd (omega arith), λ exact. absurd (ground arith)), λ small. refl)
    ]
