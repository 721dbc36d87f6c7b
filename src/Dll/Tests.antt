-- ===== src/Dll/Tests.antt =====
-- Two lists in one memory.
use svetos_kernel.Base.{[], arith}
use svetos_kernel.Dll.{Links, init_list_head, list_add_tail}
use svetos_kernel.Dll.Ring.{IsRing}
use svetos_kernel.Dll.Laws.{init_list_head-IsRing, init_list_head_other, list_add_tail_other}

abbrev nowhere : Links
nowhere = record { next = λ _. 0; prev = λ _. 0 }

-- empty lists at 8 and at 16
abbrev both : Links
both = init_list_head 8 (init_list_head 16 nowhere)

both-eight : IsRing both 8 []
both-eight = init_list_head-IsRing (init_list_head 16 nowhere) 8

both-sixteen : IsRing both 16 []
both-sixteen =
    init_list_head_other (init_list_head 16 nowhere) 8 16 [] (init_list_head-IsRing nowhere 16)
      (λ e. omega arith) (λ i. i)

-- 100 is on the first list.
one_node-sixteen : IsRing (list_add_tail 100 8 both) 16 []
one_node-sixteen =
    list_add_tail_other both 100 8 [] 16 [] both-eight both-sixteen (λ e. omega arith)
      (λ e. omega arith) (λ i. i) (λ i. i) (λ i. i) (λ y i. absurd i)
