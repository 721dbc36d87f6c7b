-- ===== src/Messages.antt =====
-- Messages: kernel/src/printk.c on the serial port, and its formatting on memory. Nothing is
-- formatted: the format string itself is what goes out. The loop runs on fuel; `none` means that it
-- was cut off.
pub mod Format
mod Tests
use svetos_kernel.Base.{
  ℕ, zero, suc, ◌+◌, ◌-◌, ◌%◌, Option, none, some, List, not, ◌&&◌, ltb, ◌==◌, if◌then◌else◌, sub32,
}
use svetos_kernel.Ports.{Ports}
use svetos_kernel.Serial.{serial_puts}
use svetos_kernel.Strings.{Bytes, write}

-- `printk` and `kprintf`, without the arguments that nothing reads
unfoldable pub printk : (P : Ports) → ℕ → (format : List ℕ) → P.State → Option P.State
printk P fuel format s = serial_puts P fuel format s

-- the loop of `vsnprintf` from the index `i` on
unfoldable pub format_from : ℕ → (str size format i : ℕ) → Bytes → Option (ℕ × Bytes)
format_from zero str size format i mem = none
format_from (suc fuel) str size format i mem =
    let rest = format_from fuel str size format (i + 1) (write mem (str + i) (mem (format + i))) in
    if ltb i (sub32 size 1) && not (mem (format + i) == 0)
    then rest
    else some (i, write mem (str + i) 0)

unfoldable pub vsnprintf : ℕ → (str size format : ℕ) → Bytes → Option (ℕ × Bytes)
vsnprintf fuel str size format mem = format_from fuel str size format 0 mem

unfoldable pub snprintf : ℕ → (str size format : ℕ) → Bytes → Option (ℕ × Bytes)
snprintf fuel str size format mem = vsnprintf fuel str size format mem
