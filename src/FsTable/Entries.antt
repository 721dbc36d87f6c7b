-- ===== src/FsTable/Entries.antt =====
-- The entries of the root directory against the nodes, modules/sys/fs/initrd_fs/fs.c.
use svetos_kernel.Base.{
  ℕ, ◌≡◌, ◌≢◌, refl, length, none, some, Option, Option-cases, inl, inr, ap, List, [], ◌∷◌, arith,
}
use svetos_kernel.Base.Text.{codes}
use svetos_kernel.Registry.{Str, CString}
use svetos_kernel.FsTable.{
  FsNode, root_node, modules_node, drivers_node, test_node, tests_node, node_name, fs_open, test_fs,
  root_entries, Dirent, fs_create, failed_to_create,
}
use svetos_kernel.FsTable.Open.{fs_open_lem}

-- the path of an entry of the root directory
abbrev pub root_path : Dirent → Str
root_path e = 47 ∷ e.d_name

-- which of the entries `fs_open` finds
abbrev pub found : CString → List Dirent → List (Option FsNode)
found C [] = []
found C (e ∷ es) = fs_open C (root_path e) ∷ found C es

not_found :
    (C : CString) (filename : Str)
    → ((n : FsNode) → filename ≢ node_name n)
    → fs_open C filename ≡ none
not_found C filename other = elim (Option-cases (fs_open C filename)) [
  | inl missing ↦ missing
  | inr (n, hit) ↦ absurd (other n ((fs_open_lem C n).1 filename hit))
]

second : Str → ℕ
second [] = 0
second (x ∷ []) = 0
second (x ∷ y ∷ s) = y

drivers_unknown : (n : FsNode) → codes "/drivers" ≢ node_name n
unfolding node_name second
drivers_unknown root_node e = omega (arith, ap length e)
drivers_unknown modules_node e = omega (arith, ap second e)
drivers_unknown drivers_node e = omega (arith, ap length e)
drivers_unknown test_node e = omega (arith, ap length e)
drivers_unknown tests_node e = omega (arith, ap length e)

tests_unknown : (n : FsNode) → codes "/tests" ≢ node_name n
unfolding node_name
tests_unknown root_node e = omega (arith, ap length e)
tests_unknown modules_node e = omega (arith, ap length e)
tests_unknown drivers_node e = omega (arith, ap length e)
tests_unknown test_node e = omega (arith, ap length e)
tests_unknown tests_node e = omega (arith, ap length e)

modules_known : (C : CString) → fs_open C (codes "/modules") ≡ some modules_node
unfolding node_name
modules_known C = (fs_open_lem C modules_node).0

-- Of the three entries that the file lists for the root directory, `fs_open` finds only `modules`:
-- it knows the other two by no path of theirs; and the test of the file system always ends where
-- it fails to create its file.
pub root_entries-found :
    (C : CString)
    → (found C root_entries ≡ some modules_node ∷ none ∷ none ∷ []) × (test_fs C ≡ failed_to_create)
unfolding root_entries test_fs fs_create
root_entries-found C =
    let modules : fs_open C (codes "/modules") ≡ some modules_node = modules_known C in
    let drivers = not_found C (codes "/drivers") drivers_unknown in
    let tests = not_found C (codes "/tests") tests_unknown in
    (rw (modules, drivers, tests) refl, refl)
