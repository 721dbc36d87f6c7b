-- ===== src/Modules/Tests.antt =====
-- A list of one module, whose `init` counts its calls.
use svetos_kernel.Base.{ℕ, ◌+◌, ◌≡◌, true, some, [], ◌∷◌, arith}
use svetos_kernel.Dll.{Links, init_list_head, list_add_tail}
use svetos_kernel.Dll.Ring.{IsRing}
use svetos_kernel.Dll.Laws.{init_list_head-IsRing, list_add_tail-IsRing}
use svetos_kernel.Registry.Bytewise.{bytewise}
use svetos_kernel.Modules.{KernelModule, initialize_modules, find_module}
use svetos_kernel.Modules.Walk.{succeeded, after_all, first_named, walks_lem}

abbrev start : Links
start = init_list_head 8 (record { next = λ _. 0; prev = λ _. 0 })

abbrev one : Links
one = list_add_tail 100 8 start

one-IsRing : IsRing one 8 (100 ∷ [])
one-IsRing =
    list_add_tail-IsRing start 100 8 []
      (init_list_head-IsRing (record { next = λ _. 0; prev = λ _. 0 }) 8) (λ e. omega arith)
      (λ i. i)

abbrev driver : ℕ → KernelModule ℕ
driver p = record { name = 97 ∷ []; init = some (λ m. (true, m + 1)) }

walks_lem_example :
    (find_module ℕ 8 bytewise 2 one driver (97 ∷ [])
      ≡ some (first_named ℕ 8 one driver bytewise (97 ∷ []) (100 ∷ [])))
    × (initialize_modules ℕ 8 2 one driver 5
        ≡ some (succeeded ℕ 8 one driver (100 ∷ []) 5, after_all ℕ 8 one driver (100 ∷ []) 5))
walks_lem_example =
    walks_lem ℕ 8 one driver bytewise (97 ∷ []) (100 ∷ []) 2 5 one-IsRing (omega arith)
