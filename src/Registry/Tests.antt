-- ===== src/Registry/Tests.antt =====
-- A registry on a fresh heap.
use svetos_kernel.Base.{◌≡◌, ◌≢◌, ◌⊎◌, refl, true, some, [], ◌∷◌, arith}
use svetos_kernel.Allocator.{null, Allocator}
use svetos_kernel.Mm.Example.{fresh, one_block, fresh-IsHeap}
use svetos_kernel.Mm.Allocator.{mm_allocator}
use svetos_kernel.Registry.{
  Str, entry_size, Registry, interface_register, interface_get, interface_exists,
}
use svetos_kernel.Registry.Bytewise.{bytewise}
use svetos_kernel.Registry.Lookup.{interface_register_lem}

abbrev A : Allocator
A = mm_allocator 4096 (omega arith)

abbrev empty : Registry A bytewise
empty = record { interfaces = []; heap = fresh }

abbrev disk : Str
disk = 100 ∷ 105 ∷ 115 ∷ 107 ∷ []

interface_register_lem_example :
    (r' : Registry A bytewise) × (interface_register A bytewise (some disk) 8192 empty ≡ some r')
    × A.Inv r'.heap
    × (((interface_get A bytewise (some disk) r' ≡ 8192)
          × (interface_exists A bytewise (some disk) r' ≡ true)
          × ((other : Str)
              → other ≢ disk
              → interface_get A bytewise (some other) r'
                ≡ interface_get A bytewise (some other) empty))
        ⊎ ((r' ≡ empty) × (A.kmalloc entry_size fresh ≡ some (null, fresh))))
interface_register_lem_example =
    interface_register_lem A bytewise disk 8192 empty (one_block, fresh-IsHeap, refl) (omega arith)
      (omega arith)
