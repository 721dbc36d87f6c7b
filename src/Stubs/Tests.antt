-- ===== src/Stubs/Tests.antt =====
-- The stubs on a memory that counts.
use svetos_kernel.Base.{◌%◌, ◌≡◌}
use svetos_kernel.Strings as Kernel
use svetos_kernel.Stubs.{strlen, strcpy, memcpy}
use svetos_kernel.Stubs.Same.{stubs-same}

abbrev memory : Kernel.Bytes
memory a = a % 7

stubs-same_example :
    (strlen 9 100 memory ≡ Kernel.strlen 9 100 memory)
    × (strcpy 9 50 100 memory ≡ Kernel.strcpy 9 50 100 memory)
    × (memcpy 50 100 4 memory ≡ Kernel.memcpy 50 100 4 memory)
stubs-same_example = stubs-same 9 4 50 100 memory
