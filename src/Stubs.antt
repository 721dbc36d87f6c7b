-- ===== src/Stubs.antt =====
-- The byte routines that a module links with before the kernel's own are there,
-- modules/module_stubs.c, on memory as a function of the address; and its stubs, which hand out
-- nothing. The loops run on fuel; `none` means that they were cut off.
pub mod Same
mod Tests
use svetos_kernel.Base.{ℕ, zero, suc, ◌+◌, Option, none, some, List, ◌==◌, if◌then◌else◌}
use svetos_kernel.Strings.{Bytes, write}

-- the loop of `strlen`, with the length found so far
unfoldable pub length_from : ℕ → (len str : ℕ) → Bytes → Option ℕ
length_from zero len str mem = none
length_from (suc fuel) len str mem =
    let rest = length_from fuel (len + 1) str mem in if mem (str + len) == 0 then some len else rest

unfoldable pub strlen : ℕ → ℕ → Bytes → Option ℕ
strlen fuel str mem = length_from fuel 0 str mem

-- Here the final zero is copied by the loop.
unfoldable pub strcpy : ℕ → (dest src : ℕ) → Bytes → Option Bytes
strcpy zero dest src mem = none
strcpy (suc fuel) dest src mem =
    let copied = write mem dest (mem src) in
    let rest = strcpy fuel (dest + 1) (src + 1) copied in if mem src == 0 then some copied else rest

unfoldable pub memcpy : (dest src n : ℕ) → Bytes → Bytes
memcpy dest src zero mem = mem
memcpy dest src (suc n) mem = memcpy (dest + 1) (src + 1) n (write mem dest (mem src))

-- `interface_get` finds nothing and `kmalloc` has no memory, both by a null pointer.
pub interface_get : (name : List ℕ) → ℕ
interface_get name = 0

pub kmalloc : (size : ℕ) → ℕ
kmalloc size = 0
