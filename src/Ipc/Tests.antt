-- ===== src/Ipc/Tests.antt =====
-- Messages between processes on the kernel's own allocator.

use svetos_kernel.Base.{
  some, ◌≢◌, ◌+◌, ◌%◌, ◌^◌, ℕ, List, ◌++◌, ◌≡◌, ◌⊎◌, refl, true, [], ◌∷◌, replicate, arith,
}
use svetos_kernel.Allocator.{Ptr, null, Allocator}
use svetos_kernel.Mm.Example.{fresh, one_block, fresh-IsHeap, used, kmalloc_runs}
use svetos_kernel.Mm.Alloc.Served.{kmalloc-IsServed}
use svetos_kernel.Mm.Allocator.{mm_allocator, serves_one}
use svetos_kernel.Ipc.{
  Message, node_header, Ipc, done, overrun, Pointers, enqueue, ipc_init, ipc_send,
}
use svetos_kernel.Ipc.Inv.{Queues, post, Holds, ipc_init-Holds}
use svetos_kernel.Ipc.Send.{message_of, enqueue-Holds, ipc_send-post, ipc_send_overruns}
use svetos_kernel.Ipc.Traffic.{Event, sends, receives, processes, Answer, run, Trace}
use svetos_kernel.Ipc.Traffic.Order.{sent_to, got, run-order}

abbrev A : Allocator
A = mm_allocator 4096 (omega arith)

abbrev base : Ptr
base = 1024

abbrev hello : Message
hello = message_of 0 (replicate 76 7) 76 1

abbrev boot : Ipc A base
boot = record {
  links = record { next = λ _. 0; prev = λ _. 0 };
  message = λ _. hello;
  heap = fresh;
}

abbrev start : Ipc A base
start = ipc_init A base boot

abbrev nobody : Queues
nobody i = []

start-Holds : Holds A base start nobody
start-Holds = ipc_init-Holds A base boot (one_block, fresh-IsHeap, refl) (omega arith)

abbrev sent : Ipc A base
sent = enqueue A base 4112 hello used start

sent-Holds : Holds A base sent (post nobody 0 hello)
unfolding ipc_init
sent-Holds =
    let (cs, out) =
      kmalloc-IsServed 100 fresh one_block 4112 used fresh-IsHeap (omega arith) kmalloc_runs
        (omega arith) in
    enqueue-Holds A base nobody start hello 4112 used 100 start-Holds (omega arith) (omega arith)
      (cs, out.heap, out.arena.0)
      (serves_one 4096 (omega arith) 100 fresh one_block 4112 used cs fresh-IsHeap refl out)

ipc_send-post_example :
    ((s' : Ipc A base) × (ipc_send A base 3 (1 ∷ 2 ∷ []) 2 1 start ≡ done (1, s'))
      × Holds A base s' (post nobody 3 (message_of 3 (1 ∷ 2 ∷ []) 2 1)))
    ⊎ ((ipc_send A base 3 (1 ∷ 2 ∷ []) 2 1 start ≡ done (0, start))
        × (A.kmalloc (node_header + 2) start.heap ≡ some (null, start.heap)))
ipc_send-post_example =
    ipc_send-post A base nobody start 3 (1 ∷ 2 ∷ []) 2 1 start-Holds (omega arith) (omega arith)

ipc_send_overruns_example :
    (node : Ptr) × (heap : A.State) × (A.kmalloc ((node_header + 0xFFFF_FFF0) % 2 ^ 32) start.heap
      ≡ some (node, heap))
    × (((node ≡ null)
          × (ipc_send A base 3 [] 0xFFFF_FFF0 1 start ≡ done (0, record start { heap = heap })))
        ⊎ ((node ≢ null) × (ipc_send A base 3 [] 0xFFFF_FFF0 1 start ≡ overrun)))
ipc_send_overruns_example =
    ipc_send_overruns A base nobody start 3 [] 0xFFFF_FFF0 1 start-Holds (omega arith) (omega arith)
      (omega arith)

abbrev all_pointers : Pointers
all_pointers = record { from_pid = true; type = true; buffer = true }

abbrev traffic : List Event
traffic =
    sends 0 (1 ∷ 2 ∷ []) 2 1 ∷ sends 3 (9 ∷ []) 1 0 ∷ receives 0 all_pointers 16 ∷ processes 3 ∷ []

run-order_example :
    (answers : List Answer) × (s' : Ipc A base) × (r : Queues) × (run A base traffic sent
      ≡ done (answers, s'))
    × Holds A base s' r
    × (t : Trace A base (post nobody 0 hello) traffic answers r) × ((i : ℕ)
        → post nobody 0 hello i ++ sent_to i traffic answers ≡ got A base t i ++ r i)
run-order_example =
    run-order A base traffic (post nobody 0 hello) sent sent-Holds
      (omega arith, (omega arith, (tt, (tt, tt))))
