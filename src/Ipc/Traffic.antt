-- ===== src/Ipc/Traffic.antt =====
-- The message system of kernel/src/ipc/ipc.c under any sequence of calls, beside the queues that it
-- promises: a step posts a message, or takes the oldest one.
pub mod Refined
pub mod Order
use svetos_kernel.Base.{ℕ, ◌+◌, ◌^◌, ◌≤◌, ◌<◌, ◌≡◌, ◌⊎◌, Option, none, some, List, [], ◌∷◌}
use svetos_kernel.Allocator.{Ptr, Allocator}
use svetos_kernel.Ipc.{
  Message, Ipc, Outcome, done, hang, overrun, map_done, Reply, nothing, Pointers, Report, report,
  ipc_send, reply_to, receive_as, process_as,
}
use svetos_kernel.Ipc.Inv.{Queues, post, taken}
use svetos_kernel.Ipc.Send.{message_of}

-- a call of `ipc_send`, or one of `ipc_receive` or `ipc_process_messages` by the process `pid`
pub data Event : Type 0 where
  sends : (to_pid : ℕ) (buf : List ℕ) (size type : ℕ) → Event
  receives : (pid : ℕ) (ptrs : Pointers) (size : ℕ) → Event
  processes : (pid : ℕ) → Event

pub data Answer : Type 0 where
  returned : ℕ → Answer
  replied : Reply → Answer
  reported : Option Report → Answer

-- The size of a message leaves room for the node's header in 32 bits.
abbrev pub IsSmall : Event → Type 0
IsSmall (sends to_pid buf size type) = size + 31 < 2 ^ 32
IsSmall (receives pid ptrs size) = Unit
IsSmall (processes pid) = Unit

abbrev pub AllSmall : List Event → Type 0
AllSmall [] = Unit
AllSmall (e ∷ es) = IsSmall e × AllSmall es

module _ (A : Allocator) (base : Ptr) where
  unfoldable pub perform : Event → Ipc A base → Outcome (Answer × Ipc A base)
  perform (sends to_pid buf size type) s =
      map_done (λ r. (returned r.0, r.1)) (ipc_send A base to_pid buf size type s)
  perform (receives pid ptrs size) s =
      map_done (λ r. (replied r.0, r.1)) (receive_as A base pid ptrs size s)
  perform (processes pid) s = map_done (λ r. (reported r.0, r.1)) (process_as A base pid s)

  abbrev pub and_then :
      Outcome (Answer × Ipc A base)
      → (Ipc A base → Outcome (List Answer × Ipc A base))
      → Outcome (List Answer × Ipc A base)
  and_then (done (a, s)) k = map_done (λ r. (a ∷ r.0, r.1)) (k s)
  and_then hang k = hang
  and_then overrun k = overrun

  unfoldable pub run : List Event → Ipc A base → Outcome (List Answer × Ipc A base)
  run [] s = done ([], s)
  run (e ∷ es) s = and_then (perform e s) (run es)

  -- what one call may do to the queues, and what it answers
  pub data Step : Queues → Event → Answer → Queues → Type 0 where
    posted :
        (q : Queues) (to_pid : ℕ) (buf : List ℕ) (size type : ℕ)
        → to_pid < 32
        → Step q
            (sends to_pid buf size type)
            (returned 1)
            (post q to_pid (message_of to_pid buf size type))
    refused :
        (q : Queues) (to_pid : ℕ) (buf : List ℕ) (size type : ℕ)
        → Step q (sends to_pid buf size type) (returned 0) q
    received :
        (q : Queues) (pid : ℕ) (ptrs : Pointers) (size : ℕ) (msg : Message) (ms : List Message)
        → pid < 32
        → q pid ≡ msg ∷ ms
        → Step q (receives pid ptrs size) (replied (reply_to A base ptrs size msg)) (taken q pid)
    idle :
        (q : Queues) (pid : ℕ) (ptrs : Pointers) (size : ℕ)
        → (32 ≤ pid) ⊎ (q pid ≡ [])
        → Step q (receives pid ptrs size) (replied nothing) q
    processed :
        (q : Queues) (pid : ℕ) (msg : Message) (ms : List Message)
        → pid < 32
        → q pid ≡ msg ∷ ms
        → Step q (processes pid) (reported (some (report msg))) (taken q pid)
    quiet :
        (q : Queues) (pid : ℕ)
        → (32 ≤ pid) ⊎ (q pid ≡ [])
        → Step q (processes pid) (reported none) q

  pub data Trace : Queues → List Event → List Answer → Queues → Type 0 where
    ended : (q : Queues) → Trace q [] [] q
    goes_on :
        (q q' r : Queues) (e : Event) (a : Answer) (es : List Event) (answers : List Answer)
        → Step q e a q'
        → Trace q' es answers r
        → Trace q (e ∷ es) (a ∷ answers) r
