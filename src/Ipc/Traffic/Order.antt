-- ===== src/Ipc/Traffic/Order.antt =====
-- The order in which the calls of kernel/src/ipc/ipc.c deliver messages.
use mathlib.Core.List.{append-nil, append_assoc}
use svetos_kernel.Base.{
  ℕ, ◌≡◌, inl, inr, refl, List, [], ◌∷◌, ◌++◌, ◌==◌, ◌&&◌, if◌then◌else◌, Bool-cases, sym, ap, ◌∙◌,
  arith,
}
use svetos_kernel.Allocator.{Ptr, Allocator}
use svetos_kernel.Ipc.{Message, Ipc, done}
use svetos_kernel.Ipc.Inv.{Queues, taken, Holds}
use svetos_kernel.Ipc.Send.{message_of}
use svetos_kernel.Ipc.Traffic.{
  Event, sends, receives, processes, Answer, returned, replied, reported, AllSmall, run, Step,
  posted, refused, received, idle, processed, quiet, Trace, ended, goes_on,
}
use svetos_kernel.Ipc.Traffic.Refined.{run-Trace}

-- the message that a call has sent to the process `i`, by its answer
abbrev pub sent_by : ℕ → Event → Answer → List Message
sent_by i (sends to_pid buf size type) (returned k) =
    if (i == to_pid) && (k == 1) then message_of to_pid buf size type ∷ [] else []
sent_by i (sends to_pid buf size type) (replied r) = []
sent_by i (sends to_pid buf size type) (reported r) = []
sent_by i (receives pid ptrs size) a = []
sent_by i (processes pid) a = []

abbrev pub sent_to : ℕ → List Event → List Answer → List Message
sent_to i [] answers = []
sent_to i (e ∷ es) [] = []
sent_to i (e ∷ es) (a ∷ answers) = sent_by i e a ++ sent_to i es answers

module _ (A : Allocator) (base : Ptr) where
  -- the message that the process `i` has taken in a step
  abbrev pub got_in :
      {q r : Queues} {e : Event} {a : Answer} → Step A base q e a r → ℕ → List Message
  got_in (posted q to_pid buf size type lt) i = []
  got_in (refused q to_pid buf size type) i = []
  got_in (received q pid ptrs size msg ms lt e) i = if i == pid then msg ∷ [] else []
  got_in (idle q pid ptrs size w) i = []
  got_in (processed q pid msg ms lt e) i = if i == pid then msg ∷ [] else []
  got_in (quiet q pid w) i = []

  abbrev pub got :
      {q r : Queues} {es : List Event} {answers : List Answer}
      → Trace A base q es answers r
      → ℕ
      → List Message
  got (ended q) i = []
  got (goes_on q q' r e a es answers step trace) i = got_in step i ++ got trace i

  taken-order :
      (q : Queues) (pid : ℕ) (msg : Message) (ms : List Message) (i : ℕ)
      → q pid ≡ msg ∷ ms
      → q i ≡ (if i == pid then msg ∷ [] else []) ++ taken q pid i
  taken-order q pid msg ms i e = elim (Bool-cases (i == pid)) [
    | inl here ↦ let same : i ≡ pid = ground arith in rw (here, same, e) refl
    | inr other ↦ rw other refl
  ]

  -- A step moves at most one message into a queue at its end, or out of it at its front.
  Step-order :
      {q r : Queues} {e : Event} {a : Answer}
      → (t : Step A base q e a r) → (i : ℕ) → q i ++ sent_by i e a ≡ got_in t i ++ r i
  Step-order (posted q to_pid buf size type lt) i = elim (Bool-cases (i == to_pid)) [
    | inl here ↦ rw here refl
    | inr other ↦ rw other (append-nil (q i))
  ]
  Step-order (refused q to_pid buf size type) i = elim (Bool-cases (i == to_pid)) [
    | inl here ↦ rw here (append-nil (q i))
    | inr other ↦ rw other (append-nil (q i))
  ]
  Step-order (received q pid ptrs size msg ms lt e) i =
      append-nil (q i) ∙ taken-order q pid msg ms i e
  Step-order (idle q pid ptrs size w) i = append-nil (q i)
  Step-order (processed q pid msg ms lt e) i = append-nil (q i) ∙ taken-order q pid msg ms i e
  Step-order (quiet q pid w) i = append-nil (q i)

  Trace-order :
      {q r : Queues} {es : List Event} {answers : List Answer}
      → (t : Trace A base q es answers r) → (i : ℕ) → q i ++ sent_to i es answers ≡ got t i ++ r i
  Trace-order (ended q) i = append-nil (q i)
  Trace-order (goes_on q q' r e a es answers step trace) i =
      sym (append_assoc (q i) (sent_by i e a) (sent_to i es answers))
      ∙ ap (λ l. l ++ sent_to i es answers) (Step-order step i)
      ∙ append_assoc (got_in step i) (q' i) (sent_to i es answers)
      ∙ ap (λ l. got_in step i ++ l) (Trace-order trace i)
      ∙ sym (append_assoc (got_in step i) (got trace i) (r i))

  -- On a state that holds the queues `q`, every sequence of sends, receives and processed messages,
  -- by any processes, with sizes that leave room for the node's header in 32 bits, runs to its end.
  -- Its answers and the queues it leaves are those of a sequence of steps: each call posts a
  -- message at the end of its receiver's queue or refuses it, takes the oldest message of the
  -- process's queue, or finds no message there. For each process the messages that were waiting,
  -- followed by those that were sent to it, are those it has taken, followed by those that wait
  -- now, in that order: none is lost, doubled or overtaken.
  pub run-order :
      (es : List Event) (q : Queues) (s : Ipc A base)
      → Holds A base s q
      → AllSmall es
      → (answers : List Answer) × (s' : Ipc A base) × (r : Queues) × (run A base es s
          ≡ done (answers, s'))
        × Holds A base s' r
        × (t : Trace A base q es answers r) × ((i : ℕ)
            → q i ++ sent_to i es answers ≡ got t i ++ r i)
  run-order es q s h small =
      let (answers, s', r, ran, trace, h') = run-Trace A base es q s h small in
      (answers, s', r, ran, h', trace, Trace-order trace)
