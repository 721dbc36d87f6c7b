-- ===== src/Ipc/Traffic/Refined.antt =====
-- The calls of kernel/src/ipc/ipc.c refine the steps of the queues.
use svetos_kernel.Base.{
  ℕ, ◌≤◌, ◌<◌, ◌≡◌, ◌⊎◌, inl, inr, refl, none, some, List, [], ◌∷◌, leb, Bool-cases, arith,
}
use svetos_kernel.Allocator.{Ptr, Allocator}
use svetos_kernel.Ipc.{Message, Ipc, done, Pointers, nothing, reply_to, report, ipc_send}
use svetos_kernel.Ipc.Inv.{Queues, post, taken, Holds}
use svetos_kernel.Ipc.Send.{message_of, ipc_send-post}
use svetos_kernel.Ipc.Receive.{
  receive_as_far, process_as_far, receive_as_empty, receive_as-taken, process_as_empty,
  process_as-taken,
}
use svetos_kernel.Ipc.Traffic.{
  Event, sends, receives, processes, Answer, returned, replied, reported, IsSmall, AllSmall,
  perform, run, Step, posted, refused, received, idle, processed, quiet, Trace, ended, goes_on,
}

-- A process is out of range, has no message, or has one.
waiting :
    (q : Queues) (pid : ℕ)
    → (32 ≤ pid)
      ⊎ ((pid < 32) × (q pid ≡ []))
      ⊎ ((pid < 32) × (msg : Message) × (ms : List Message) × (q pid ≡ msg ∷ ms))
waiting q pid = elim (Bool-cases (leb 32 pid)) [
  | inl far ↦ inl (ground arith)
  | inr near ↦ let lt : pid < 32 = ground arith in cases (q pid) lt refl
]
  where
    cases :
        (ms : List Message)
        → pid < 32
        → q pid ≡ ms
        → (32 ≤ pid)
          ⊎ ((pid < 32) × (q pid ≡ []))
          ⊎ ((pid < 32) × (msg : Message) × (ms : List Message) × (q pid ≡ msg ∷ ms))
    cases [] lt e = inr (inl (lt, e))
    cases (msg ∷ ms) lt e = inr (inr (lt, msg, ms, e))

module _ (A : Allocator) (base : Ptr) where
  -- A call returns, and does to the queues what a step may do.
  abbrev Refines : Event → Queues → Ipc A base → Type 0
  Refines e q s =
      (a : Answer) × (s' : Ipc A base) × (q' : Queues) × (perform A base e s ≡ done (a, s'))
      × Step A base q e a q'
      × Holds A base s' q'

  sends-Refines :
      (q : Queues) (s : Ipc A base) (to_pid : ℕ) (buf : List ℕ) (size type : ℕ)
      → Holds A base s q
      → IsSmall (sends to_pid buf size type)
      → Refines (sends to_pid buf size type) q s
  unfolding perform ipc_send
  sends-Refines q s to_pid buf size type h small = elim (Bool-cases (leb 32 to_pid)) [
    | inl far ↦ (returned 0, s, q, rw far refl, refused q to_pid buf size type, h)
    | inr near ↦
        let lt : to_pid < 32 = ground arith in
        elim (ipc_send-post A base q s to_pid buf size type h lt small) [
          | inl (s', ran, h') ↦ (
            returned 1,
            s',
            post q to_pid (message_of to_pid buf size type),
            rw ran refl,
            posted q to_pid buf size type lt,
            h',
          )
          | inr (ran, _) ↦ (returned 0, s, q, rw ran refl, refused q to_pid buf size type, h)
        ]
  ]

  receives-Refines :
      (q : Queues) (s : Ipc A base) (pid : ℕ) (ptrs : Pointers) (size : ℕ)
      → Holds A base s q
      → Refines (receives pid ptrs size) q s
  unfolding perform
  receives-Refines q s pid ptrs size h = elim (waiting q pid) [
    | inl far ↦ (
      replied nothing,
      s,
      q,
      rw (receive_as_far A base s pid far ptrs size) refl,
      idle q pid ptrs size (inl far),
      h,
    )
    | inr (inl (lt, e)) ↦ (
      replied nothing,
      s,
      q,
      rw (receive_as_empty A base q s pid h lt ptrs size e) refl,
      idle q pid ptrs size (inr e),
      h,
    )
    | inr (inr (lt, msg, ms, e)) ↦
        let (s', ran, h') = receive_as-taken A base q s pid h lt ptrs size msg ms e in
        (
          replied (reply_to A base ptrs size msg),
          s',
          taken q pid,
          rw ran refl,
          received q pid ptrs size msg ms lt e,
          h',
        )
  ]

  processes-Refines :
      (q : Queues) (s : Ipc A base) (pid : ℕ) → Holds A base s q → Refines (processes pid) q s
  unfolding perform
  processes-Refines q s pid h = elim (waiting q pid) [
    | inl far ↦
        (reported none, s, q, rw (process_as_far A base s pid far) refl, quiet q pid (inl far), h)
    | inr (inl (lt, e)) ↦ (
      reported none,
      s,
      q,
      rw (process_as_empty A base q s pid h lt e) refl,
      quiet q pid (inr e),
      h,
    )
    | inr (inr (lt, msg, ms, e)) ↦
        let (s', ran, h') = process_as-taken A base q s pid h lt msg ms e in
        (
          reported (some (report msg)),
          s',
          taken q pid,
          rw ran refl,
          processed q pid msg ms lt e,
          h',
        )
  ]

  perform-Refines :
      (e : Event) (q : Queues) (s : Ipc A base) → Holds A base s q → IsSmall e → Refines e q s
  perform-Refines (sends to_pid buf size type) q s h small =
      sends-Refines q s to_pid buf size type h small
  perform-Refines (receives pid ptrs size) q s h small = receives-Refines q s pid ptrs size h
  perform-Refines (processes pid) q s h small = processes-Refines q s pid h

  -- Every sequence of calls runs to its end, by steps of the queues.
  pub run-Trace :
      (es : List Event) (q : Queues) (s : Ipc A base)
      → Holds A base s q
      → AllSmall es
      → (answers : List Answer) × (s' : Ipc A base) × (r : Queues) × (run A base es s
          ≡ done (answers, s'))
        × Trace A base q es answers r
        × Holds A base s' r
  unfolding run
  run-Trace [] q s h small = ([], s, q, refl, ended q, h)
  run-Trace (e ∷ es) q s h small =
      let (a, s₁, q₁, ran, step, h₁) = perform-Refines e q s h small.0 in
      let (answers, s', r, ran', trace, h') = run-Trace es q₁ s₁ h₁ small.1 in
      (a ∷ answers, s', r, rw (ran, ran') refl, goes_on q q₁ r e a es answers step trace, h')
