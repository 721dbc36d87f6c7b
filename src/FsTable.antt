-- ===== src/FsTable.antt =====
-- The directory table of modules/sys/fs/initrd_fs/fs.c. A string is the list of its bytes; a null
-- node is `none`.
pub mod Open
pub mod Entries
use Prim.Native.String.{String}
use svetos_kernel.Base.{
  ℕ, Bool, true, false, not, Option, none, some, List, [], ◌∷◌, ◌==◌, if◌then◌else◌, length,
}
use svetos_kernel.Base.Int.{ℤ, pos, negsuc}
use svetos_kernel.Base.Text.{codes}
use svetos_kernel.Registry.{Str, CString}

-- `struct dirent`
pub record Dirent : Type 0 where
  pub d_name : Str
  pub d_type : ℕ

abbrev pub dirent : String → ℕ → Dirent
dirent name type = record { d_name = codes name; d_type = type }

-- the entries of the directories, which nothing reads
unfoldable pub root_entries : List Dirent
root_entries = dirent "modules" 2 ∷ dirent "drivers" 2 ∷ dirent "tests" 2 ∷ []

unfoldable pub modules_entries : List Dirent
modules_entries =
    dirent "test_module" 1
    ∷ dirent "interrupt_tests" 1
    ∷ dirent "mm_tests" 1
    ∷ dirent "fs_tests" 1
    ∷ []

unfoldable pub drivers_entries : List Dirent
drivers_entries = dirent "keyboard" 1 ∷ dirent "timer" 1 ∷ dirent "vga" 1 ∷ []

unfoldable pub test_entries : List Dirent
test_entries = dirent "test1" 1 ∷ dirent "test2" 1 ∷ []

unfoldable pub tests_entries : List Dirent
tests_entries = dirent "kernel" 2 ∷ dirent "user" 2 ∷ []

-- the nodes of the file, all of them directories of size 0
pub data FsNode : Type 0 where
  root_node modules_node drivers_node test_node tests_node : FsNode

unfoldable pub node_name : FsNode → Str
node_name root_node = 47 ∷ []
node_name modules_node = 47 ∷ 109 ∷ 111 ∷ 100 ∷ 117 ∷ 108 ∷ 101 ∷ 115 ∷ []
node_name drivers_node =
    47 ∷ 109 ∷ 111 ∷ 100 ∷ 117 ∷ 108 ∷ 101 ∷ 115 ∷ 47 ∷ 100 ∷ 114 ∷ 105 ∷ 118 ∷ 101 ∷ 114 ∷ 115 ∷ []
node_name test_node = 47 ∷ 109 ∷ 111 ∷ 100 ∷ 117 ∷ 108 ∷ 101 ∷ 115 ∷ 47 ∷ 116 ∷ 101 ∷ 115 ∷ 116 ∷ []
node_name tests_node =
    47 ∷ 109 ∷ 111 ∷ 100 ∷ 117 ∷ 108 ∷ 101 ∷ 115 ∷ 47 ∷ 116 ∷ 101 ∷ 115 ∷ 116 ∷ 115 ∷ []

-- `fs_open` compares with one name after the other
unfoldable pub fs_open : CString → Str → Option FsNode
unfolding node_name
fs_open C filename =
    if C.strcmp filename (node_name root_node)
    then some root_node
    else if C.strcmp filename (node_name modules_node)
    then some modules_node
    else if C.strcmp filename (node_name drivers_node)
    then some drivers_node
    else if C.strcmp filename (node_name test_node)
    then some test_node
    else if C.strcmp filename (node_name tests_node)
    then some tests_node
    else none

-- `fs_read` and `fs_write` move no bytes.
pub fs_read : FsNode → (size : ℕ) → ℕ
fs_read node size = 0

pub fs_write : FsNode → (buf : List ℕ) → (size : ℕ) → ℕ
fs_write node buf size = 0

pub fs_init : Bool
fs_init = true

-- `fs_create` refuses with -1.
unfoldable pub fs_create : (path : Str) (type : ℕ) → ℤ
fs_create path type = negsuc 0

-- the position of `fs_readdir`
pub record Position : Type 0 where
  pub readdir_index : ℕ
  pub current_dir : Option FsNode

-- what `fs_readdir` does at the start for a directory that is not the current one
abbrev pub enter_dir : Option FsNode → Bool → Position → Position
enter_dir dir true d = d
enter_dir dir false d = record { readdir_index = 0; current_dir = dir }

-- a pointer to a node as a number, with 0 for null, to compare two of them
abbrev pub pointer : Option FsNode → ℕ
pointer none = 0
pointer (some root_node) = 1
pointer (some modules_node) = 2
pointer (some drivers_node) = 3
pointer (some test_node) = 4
pointer (some tests_node) = 5

-- `fs_readdir` returns null, and forgets where it was.
unfoldable pub fs_readdir : Option FsNode → Position → Option Dirent × Position
fs_readdir dir d =
    let d' = enter_dir dir (pointer dir == pointer d.current_dir) d in
    (none, record d' { readdir_index = 0; current_dir = none })

-- `test_fs` of modules/tests/kernel/test.c, with the place where it returns
pub data TestEnd : Type 0 where
  failed_to_create failed_to_open failed_to_write failed_to_read test_passed : TestEnd

abbrev pub hello : Str
hello = codes "Hello World!"

-- what follows `fs_open`
abbrev pub on_file : Option FsNode → TestEnd
on_file none = failed_to_open
on_file (some file) =
    if not (fs_write file hello (length hello) == length hello)
    then failed_to_write
    else if not (fs_read file 32 == length hello)
    then failed_to_read
    else test_passed

abbrev pub is_zero : ℤ → Bool
is_zero (pos n) = n == 0
is_zero (negsuc n) = false

unfoldable pub test_fs : CString → TestEnd
test_fs C =
    if not (is_zero (fs_create (codes "test.txt") 1))
    then failed_to_create
    else on_file (fs_open C (codes "test.txt"))
