-- ===== src/FsTable/Open.antt =====
-- Which names `fs_open` of modules/sys/fs/initrd_fs/fs.c knows.
use svetos_kernel.Base.{
  ◌≡◌, ◌≢◌, refl, length, true, false, none, some, Bool-cases, inl, inr, ap, ◌∙◌, arith,
}
use svetos_kernel.Registry.{Str, CString}
use svetos_kernel.FsTable.{
  FsNode, root_node, modules_node, drivers_node, test_node, tests_node, node_name, fs_open,
}

fs_open-named :
    (C : CString) (filename : Str) (n : FsNode)
    → fs_open C filename ≡ some n
    → filename ≡ node_name n
unfolding fs_open
fs_open-named C filename n e = elim (Bool-cases (C.strcmp filename (node_name root_node))) [
  | inl hit ↦ named root_node hit (rw hit at e)
  | inr m0 ↦ elim (Bool-cases (C.strcmp filename (node_name modules_node))) [
    | inl hit ↦ named modules_node hit (rw (m0, hit) at e)
    | inr m1 ↦ elim (Bool-cases (C.strcmp filename (node_name drivers_node))) [
      | inl hit ↦ named drivers_node hit (rw (m0, m1, hit) at e)
      | inr m2 ↦ elim (Bool-cases (C.strcmp filename (node_name test_node))) [
        | inl hit ↦ named test_node hit (rw (m0, m1, m2, hit) at e)
        | inr m3 ↦ elim (Bool-cases (C.strcmp filename (node_name tests_node))) [
          | inl hit ↦ named tests_node hit (rw (m0, m1, m2, m3, hit) at e)
          | inr m4 ↦ absurd (nothing (rw (m0, m1, m2, m3, m4) at e))
        ]
      ]
    ]
  ]
]
  where
    named :
        (k : FsNode)
        → C.strcmp filename (node_name k) ≡ true
        → some k ≡ some n
        → filename ≡ node_name n
    named k hit same =
        let here : k ≡ n = ground arith in
        (C.strcmp_iff filename (node_name k)).0 hit ∙ ap node_name here

    nothing : none ≡ some n → ⊥
    nothing same = cc

differs : (C : CString) (a b : Str) → length a ≢ length b → C.strcmp a b ≡ false
differs C a b ne = elim (Bool-cases (C.strcmp a b)) [
  | inl same ↦ absurd (ne (ap length ((C.strcmp_iff a b).0 same)))
  | inr other ↦ other
]

fs_open-known : (C : CString) (n : FsNode) → fs_open C (node_name n) ≡ some n
unfolding fs_open
fs_open-known C root_node =
    let same = (C.strcmp_iff (node_name root_node) (node_name root_node)).1 refl in rw same
fs_open-known C modules_node = rw (
  differs C (node_name modules_node) (node_name root_node) (λ e. omega arith),
  (C.strcmp_iff (node_name modules_node) (node_name modules_node)).1 refl,
)
fs_open-known C drivers_node = rw (
  differs C (node_name drivers_node) (node_name root_node) (λ e. omega arith),
  differs C (node_name drivers_node) (node_name modules_node) (λ e. omega arith),
  (C.strcmp_iff (node_name drivers_node) (node_name drivers_node)).1 refl,
)
fs_open-known C test_node = rw (
  differs C (node_name test_node) (node_name root_node) (λ e. omega arith),
  differs C (node_name test_node) (node_name modules_node) (λ e. omega arith),
  differs C (node_name test_node) (node_name drivers_node) (λ e. omega arith),
  (C.strcmp_iff (node_name test_node) (node_name test_node)).1 refl,
)
fs_open-known C tests_node = rw (
  differs C (node_name tests_node) (node_name root_node) (λ e. omega arith),
  differs C (node_name tests_node) (node_name modules_node) (λ e. omega arith),
  differs C (node_name tests_node) (node_name drivers_node) (λ e. omega arith),
  differs C (node_name tests_node) (node_name test_node) (λ e. omega arith),
  (C.strcmp_iff (node_name tests_node) (node_name tests_node)).1 refl,
)

-- `fs_open` finds every node of the table by its name, and no node by any other name.
pub fs_open_lem :
    (C : CString) (n : FsNode)
    → (fs_open C (node_name n) ≡ some n)
      × ((filename : Str) → fs_open C filename ≡ some n → filename ≡ node_name n)
fs_open_lem C n = (fs_open-known C n, λ filename. fs_open-named C filename n)
