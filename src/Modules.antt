-- ===== src/Modules.antt =====
-- The list of kernel modules, kernel/src/modules/manager.c, over `Dll`. The links of a `struct
-- module` stand at its own address. The walks run on fuel: `none` means that they were cut off.
pub mod Walk
mod Tests
use mathlib.Core.Option
use svetos_kernel.Base.{
  ℕ, zero, suc, ◌+◌, Bool, true, false, Option, none, some, ◌==◌, if◌then◌else◌,
}
use svetos_kernel.Dll.{Ptr, null, Links, init_list_head, list_add_tail}
use svetos_kernel.Registry.{Str, CString}

-- An `init` acts on the machine, of type `M`, and not on the list; its flag is whether it returned
-- 0.
pub record KernelModule (M : Type 0) : Type 0 where
  pub name : Str
  pub init : Option (M → Bool × M)

-- `head` is the address of `loaded_modules`.
module _ (M : Type 0) (head : Ptr) where
  unfoldable pub register_kernel_module : Ptr → Links → Links
  register_kernel_module mod_ptr s =
      if mod_ptr == null then s else list_add_tail mod_ptr head (init_list_head mod_ptr s)

  -- one round of `initialize_modules`, with the count so far
  abbrev pub run_init : Option (M → Bool × M) → ℕ × M → ℕ × M
  run_init none (count, m) = (count, m)
  run_init (some init) (count, m) = let (ok, m') = init m in (if ok then count + 1 else count, m')

  unfoldable pub walk_init :
      ℕ → Links → (Ptr → KernelModule M) → (pos : Ptr) → ℕ × M → Option (ℕ × M)
  walk_init zero s mods pos c = none
  walk_init (suc fuel) s mods pos c =
      let rest = walk_init fuel s mods (s.next pos) (run_init (mods pos).init c) in
      if pos == head then some c else rest

  unfoldable pub initialize_modules : ℕ → Links → (Ptr → KernelModule M) → M → Option (ℕ × M)
  initialize_modules fuel s mods m = walk_init fuel s mods (s.next head) (0, m)

  unfoldable pub walk_find :
      CString → ℕ → Links → (Ptr → KernelModule M) → (name : Str) (pos : Ptr) → Option Ptr
  walk_find C zero s mods name pos = none
  walk_find C (suc fuel) s mods name pos =
      let rest = walk_find C fuel s mods name (s.next pos) in
      if pos == head then some null else if C.strcmp (mods pos).name name then some pos else rest

  unfoldable pub find_module : CString → ℕ → Links → (Ptr → KernelModule M) → Str → Option Ptr
  find_module C fuel s mods name = walk_find C fuel s mods name (s.next head)
