-- ===== src/Debug.antt =====
-- Assertions, kernel/src/debug.c, over the formatting of `Messages`. `none`: a loop was cut off.
pub mod Asserts
mod Tests
use svetos_kernel.Base.{ℕ, Option, none, some, List, ◌==◌, if◌then◌else◌}
use svetos_kernel.Strings.{Bytes}
use svetos_kernel.Base.Text.{codes}
use svetos_kernel.Ports.{Ports}
use svetos_kernel.Messages.{printk, vsnprintf, snprintf}

-- A name is the address of its text, and null is `none`.
pub record Debug : Type 0 where
  pub current_test : Option ℕ
  pub memory : Bytes

unfoldable pub debug_set_test_name : Option ℕ → Debug → Debug
debug_set_test_name name d = record d { current_test = name }

-- `debug_test_start` and `debug_test_end`, but for what they print
unfoldable pub debug_test_start : ℕ → Debug → Debug
unfolding debug_set_test_name
debug_test_start name d = debug_set_test_name (some name) d

unfoldable pub debug_test_end : Debug → Debug
unfolding debug_set_test_name
debug_test_end d = debug_set_test_name none d

-- what follows a call of the formatting
abbrev pub formatted {ℓ} : {A : Type ℓ} → Option (ℕ × Bytes) → (Bytes → Option A) → Option A
formatted none k = none
formatted (some (count, mem)) k = k mem

module _ (P : Ports) where
  -- whether `debug_assert` returns, or ends in the endless loop of `panic`
  pub data AssertEnd : Type 0 where
    returned halted : Debug → P.State → AssertEnd

  abbrev pub printed {ℓ} : {A : Type ℓ} → Option P.State → (P.State → Option A) → Option A
  printed none k = none
  printed (some s) k = k s

  -- `panic` of debug.c: its message is an argument that `printk` does not read.
  unfoldable pub panic : (wait : ℕ) → Debug → P.State → Option AssertEnd
  panic wait d s = printed (printk P wait (codes "PANIC: %s at %s:%d\n") s) λ s'. some (halted d s')

  -- `debug_assert`, with the addresses of its two buffers on the stack and of its two formats;
  -- `full_msg` is an argument that `printk` does not read.
  unfoldable pub debug_assert :
      (fuel wait condition buffer full_msg format failed : ℕ) → Debug → P.State → Option AssertEnd
  debug_assert fuel wait condition buffer full_msg format failed d s =
      if condition == 0
      then formatted (vsnprintf fuel buffer 256 format d.memory) (λ mem.
        formatted (snprintf fuel full_msg 256 failed mem) λ mem'.
          printed (printk P wait (codes "%s\n") s) λ s'. panic wait (record d { memory = mem' }) s')
      else some (returned d s)
