-- ===== src/Registry.antt =====
-- The registry of interfaces, kernel/src/interfaces/registry.c. Strings are lists of the bytes
-- before the final zero; a null pointer to one is `none`. `strncpy` and `strcmp` are declared in
-- kernel/include/string.h and defined nowhere: `CString` says what is used of them.
pub mod Bytewise
pub mod Lookup
mod Tests
use svetos_kernel.Base.{
  ℕ, ◌+◌, ◌-◌, ◌≤◌, ◌<◌, ◌≡◌, ◌↔◌, Bool, true, false, not, Option, none, some, List, [], ◌∷◌, ◌==◌,
  if◌then◌else◌, take, length,
}
use svetos_kernel.Allocator.{Ptr, null, Allocator}

abbrev pub Str : Type 0
Str = List ℕ

pub record CString : Type 0 where
  -- the first `n` bytes of the destination, up to a zero, once zero is put behind them
  pub strncpy : (src : Str) (n : ℕ) → Str
  pub strncpy_lem : (src : Str) (n : ℕ) → length src ≤ n → strncpy src n ≡ src
  -- `strcmp(a, b) == 0`
  pub strcmp : Str → Str → Bool
  pub strcmp_iff : (a b : Str) → (strcmp a b ≡ true) ↔ (a ≡ b)

-- `struct interface_entry`, without its link
pub record Entry : Type 0 where
  pub name : Str
  pub interface : Ptr

-- `sizeof(struct interface_entry)`: 32 bytes and two pointers
abbrev pub entry_size : ℕ
entry_size = 40

abbrev pub name_size : ℕ
name_size = 32

-- the walk along the links of `interface_get`
unfoldable pub search_entries : CString → List Entry → Str → Ptr
search_entries C [] name = null
search_entries C (e ∷ es) name =
    let rest = search_entries C es name in if C.strcmp e.name name then e.interface else rest

module _ (A : Allocator) (C : CString) where
  -- `interfaces`, the newest entry first
  pub record Registry : Type 0 where
    pub interfaces : List Entry
    pub heap : A.State

  -- what follows `kmalloc`; `none`: it does not return
  unfoldable pub add_entry : Option (Ptr × A.State) → Str → Ptr → Registry → Option Registry
  add_entry none name interface r = none
  add_entry (some (entry, heap)) name interface r =
      if entry == null
      then some (record r { heap = heap })
      else some (record {
        interfaces =
            record { name = C.strncpy name (name_size - 1); interface = interface } ∷ r.interfaces;
        heap = heap;
      })

  unfoldable pub interface_register : Option Str → Ptr → Registry → Option Registry
  interface_register none interface r = some r
  interface_register (some name) interface r =
      if interface == null then some r else add_entry (A.kmalloc entry_size r.heap) name interface r

  unfoldable pub interface_get : Option Str → Registry → Ptr
  interface_get none r = null
  interface_get (some name) r = search_entries C r.interfaces name

  unfoldable pub interface_exists : Option Str → Registry → Bool
  interface_exists name r = not (interface_get name r == null)
