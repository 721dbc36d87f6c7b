-- ===== src/Strings.antt =====
-- The byte routines of kernel/src/string.c, on memory as a function of the address. The scans for
-- the final zero run on fuel; `none` means that they were cut off.
pub mod Laws
mod Tests
use mathlib.Core.Option
use svetos_kernel.Base.{ℕ, zero, suc, ◌+◌, ◌%◌, Option, none, some, ◌==◌, if◌then◌else◌}

abbrev pub Bytes : Type 0
Bytes = ℕ → ℕ

abbrev pub write : Bytes → ℕ → ℕ → Bytes
write mem p v a = if a == p then v else mem a

unfoldable pub memcpy : (dest src n : ℕ) → Bytes → Bytes
memcpy dest src zero mem = mem
memcpy dest src (suc n) mem = memcpy (dest + 1) (src + 1) n (write mem dest (mem src))

unfoldable pub memset : (s c n : ℕ) → Bytes → Bytes
memset s c zero mem = mem
memset s c (suc n) mem = memset (s + 1) c n (write mem s (c % 256))

unfoldable pub strcpy : ℕ → (dest src : ℕ) → Bytes → Option Bytes
strcpy zero dest src mem = none
strcpy (suc fuel) dest src mem =
    let rest = strcpy fuel (dest + 1) (src + 1) (write mem dest (mem src)) in
    if mem src == 0 then some (write mem dest 0) else rest

unfoldable pub strlen : ℕ → ℕ → Bytes → Option ℕ
strlen zero s mem = none
strlen (suc fuel) s mem =
    let rest = Option.map suc (strlen fuel (s + 1) mem) in if mem s == 0 then some 0 else rest
