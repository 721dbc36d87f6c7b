-- ===== src/Ipc/Send.antt =====
-- `ipc_send` of kernel/src/ipc/ipc.c posts one message, or none.
use mathlib.Core.List.{map}
use svetos_kernel.Base.{
  ℕ, ◌+◌, ◌%◌, ◌≤◌, ◌<◌, ◌^◌, ◌≡◌, ◌≢◌, ◌⊎◌, inl, inr, refl, true, false, some, List, [], ◌∷◌, ◌++◌,
  ◌==◌, ltb, if◌then◌else◌, ap, ap₂, subst, sym, ◌∙◌, add32, take, Bool-cases, lt→ltb, ltb-false,
  leb-false, ==-zero, arith,
}
use svetos_kernel.Allocator.{Ptr, null, Allocator, Allocated}
use svetos_kernel.Dll.{init_list_head}
use svetos_kernel.Dll.Ring.{In, IsRing}
use svetos_kernel.Dll.Laws.{
  In-append, init_list_head_other, list_add_tail-IsRing, list_add_tail_other,
}
use svetos_kernel.Ipc.{
  Message, Ipc, done, overrun, queue, node_header, block_room, get_current_pid, enqueue, send_in,
  ipc_send,
}
use svetos_kernel.Ipc.Inv.{Queues, post, IsIpc, Holds, node-ne-queue}

-- the message that `ipc_send` builds
abbrev pub message_of : (to_pid : ℕ) (buf : List ℕ) (size type : ℕ) → Message
message_of to_pid buf size type = record {
  from_pid = get_current_pid;
  to_pid = to_pid;
  type = type;
  size = size;
  bytes = take size buf;
}

abbrev pushed : (ℕ → List Ptr) → ℕ → Ptr → ℕ → List Ptr
pushed qs to node i = if i == to then qs i ++ node ∷ [] else qs i

map-update :
    (f : Ptr → Message) (node : Ptr) (msg : Message) (xs : List Ptr)
    → ¬ In node xs
    → map (λ p. if p == node then msg else f p) xs ≡ map f xs
map-update f node msg [] out = refl
map-update f node msg (x ∷ xs) out =
    let ne : x ≢ node = λ e. out (inl (sym e)) in
    ap₂ ◌∷◌ (ground arith) (map-update f node msg xs (λ i. out (inr i)))

map-update-append :
    (f : Ptr → Message) (node : Ptr) (msg : Message) (xs : List Ptr)
    → ¬ In node xs
    → map (λ p. if p == node then msg else f p) (xs ++ node ∷ []) ≡ map f xs ++ msg ∷ []
map-update-append f node msg [] out = let hit : (node == node) ≡ true = ground arith in rw hit
map-update-append f node msg (x ∷ xs) out =
    let ne : x ≢ node = λ e. out (inl (sym e)) in
    ap₂ ◌∷◌ (ground arith) (map-update-append f node msg xs (λ i. out (inr i)))

module _ (A : Allocator) (base : Ptr) (qs : ℕ → List Ptr) (s : Ipc A base) (v : IsIpc A base qs s)
    (msg : Message) (lt : msg.to_pid < 32) (node : Ptr) (heap : A.State) (n : ℕ)
    (le : node_header ≤ n) (a : Allocated A.Owned s.heap n node heap) where
  node_new : (i : ℕ) → i < 32 → ¬ In node (qs i)
  node_new i h j = a.fresh node_header (v.owned i node h j)

  node_above : (i : ℕ) → i < 32 → node ≢ queue A base i
  node_above i h e = let above = A.Owned-low node n heap a.owned in omega (arith, v.below)

  linked : (i : ℕ) → i < 32 → IsRing (init_list_head node s.links) (queue A base i) (qs i)
  linked i h =
      init_list_head_other s.links node (queue A base i) (qs i) (v.rings i h)
        (λ e. node_above i h (sym e)) (node_new i h)

  IsRing-of :
      (i : ℕ)
      → i < 32
      → IsRing (enqueue A base node msg heap s).links (queue A base i) (pushed qs msg.to_pid node i)
  unfolding enqueue
  IsRing-of i h = elim (Bool-cases (i == msg.to_pid)) [
    | inl hit ↦
        let same : i ≡ msg.to_pid = ground arith in
        rw hit (
          rw same (
            list_add_tail-IsRing (init_list_head node s.links) node (queue A base msg.to_pid)
              (qs msg.to_pid) (linked msg.to_pid lt) (node_above msg.to_pid lt)
              (node_new msg.to_pid lt)))
    | inr miss ↦
        let ne : i ≢ msg.to_pid = ground arith in
        rw miss (
          list_add_tail_other (init_list_head node s.links) node (queue A base msg.to_pid)
            (qs msg.to_pid) (queue A base i) (qs i) (linked msg.to_pid lt) (linked i h)
            (λ e. ne (omega arith)) (node_above i h) (node_new i h)
            (node-ne-queue A base qs s i msg.to_pid v h lt)
            (node-ne-queue A base qs s msg.to_pid i v lt h)
            (λ y j j'. ne (v.apart i msg.to_pid y h lt j j')))
  ]

  In-pushed :
      (i : ℕ) (p : Ptr)
      → In p (pushed qs msg.to_pid node i)
      → In p (qs i) ⊎ ((p ≡ node) × (i ≡ msg.to_pid))
  In-pushed i p j = elim (Bool-cases (i == msg.to_pid)) [
    | inl hit ↦
        let j' : In p (qs i ++ node ∷ []) = rw hit at j in
        elim (In-append p node (qs i) j') [ inl k ↦ inl k | inr e ↦ inr (e, ground arith) ]
    | inr miss ↦ let j' : In p (qs i) = rw miss at j in inl j'
  ]

  enqueue-IsIpc :
      A.Inv heap → IsIpc A base (pushed qs msg.to_pid node) (enqueue A base node msg heap s)
  unfolding enqueue
  enqueue-IsIpc inv = record {
    inv = inv;
    rings = IsRing-of;
    owned = λ i p h j. elim (In-pushed i p j) [
      | inl k ↦ a.kept p node_header (v.owned i p h k)
      | inr (e, _) ↦ rw e (A.Owned-le node node_header n heap le a.owned)
    ];
    apart = λ i j p hi hj x y. elim (In-pushed i p x) [
      | inl x' ↦ elim (In-pushed j p y) [
        | inl y' ↦ v.apart i j p hi hj x' y'
        | inr (e, _) ↦ absurd (node_new i hi (subst (λ z. In z (qs i)) e x'))
      ]
      | inr (e, ei) ↦ elim (In-pushed j p y) [
        | inl y' ↦ absurd (node_new j hj (subst (λ z. In z (qs j)) e y'))
        | inr (_, ej) ↦ ei ∙ sym ej
      ]
    ];
    below = v.below;
  }

  enqueue-post :
      (q : Queues)
      → ((i : ℕ) → i < 32 → map s.message (qs i) ≡ q i)
      → (i : ℕ) → i < 32
      → map (enqueue A base node msg heap s).message (pushed qs msg.to_pid node i)
        ≡ post q msg.to_pid msg i
  unfolding enqueue
  enqueue-post q view i h = elim (Bool-cases (i == msg.to_pid)) [
    | inl hit ↦
        rw (hit, map-update-append s.message node msg (qs i) (node_new i h))
          (ap (λ l. l ++ msg ∷ []) (view i h))
    | inr miss ↦ rw (miss, map-update s.message node msg (qs i) (node_new i h)) (view i h)
  ]

module _ (A : Allocator) (base : Ptr) (q : Queues) (s : Ipc A base) where
  -- A node that the allocator has just handed out takes the message behind its receiver's queue.
  pub enqueue-Holds :
      (msg : Message) (node : Ptr) (heap : A.State) (n : ℕ)
      → Holds A base s q
      → msg.to_pid < 32
      → node_header ≤ n
      → A.Inv heap
      → Allocated A.Owned s.heap n node heap
      → Holds A base (enqueue A base node msg heap s) (post q msg.to_pid msg)
  enqueue-Holds msg node heap n (qs, v, view) lt le inv a = (
    pushed qs msg.to_pid node,
    enqueue-IsIpc A base qs s v msg lt node heap n le a inv,
    enqueue-post A base qs s v msg lt node heap n le a q view,
  )

  send_in-post :
      (msg : Message) (n : ℕ)
      → Holds A base s q
      → msg.to_pid < 32
      → n ≡ node_header + msg.size
      → n + 7 < 2 ^ 32
      → ((s' : Ipc A base) × (send_in A base (A.kmalloc n s.heap) msg s ≡ done (1, s'))
          × Holds A base s' (post q msg.to_pid msg))
        ⊎ ((send_in A base (A.kmalloc n s.heap) msg s ≡ done (0, s))
            × (A.kmalloc n s.heap ≡ some (null, s.heap)))
  unfolding send_in
  send_in-post msg n (qs, v, view) lt e small =
      let (node, heap, ran, inv, out) = A.kmalloc_lem n s.heap v.inv small in
      elim out [
        | inl (z, same) ↦ inr (rw (ran, z, same) (refl, refl))
        | inr (ne, a) ↦
            let above = A.Owned-low node n heap a.owned in
            let miss : (node == null) ≡ false = ==-zero node (omega (arith, A.low_pos)) in
            let fits : ltb (block_room A base (add32 node_header msg.size)) (node_header + msg.size)
                ≡ false =
              ltb-false (block_room A base (add32 node_header msg.size)) (node_header + msg.size)
                (omega arith) in
            inl (
              enqueue A base node msg heap s,
              rw (ran, miss, fits),
              enqueue-Holds msg node heap n (qs, v, view) lt (omega arith) inv a,
            )
      ]

  -- On a state that holds the queues `q`, sending to a process below 32 either posts the message
  -- behind that process's queue and returns 1, or returns 0 and changes nothing, and then the
  -- allocator has refused the node. (The size leaves room for the node's header in 32 bits.)
  pub ipc_send-post :
      (to_pid : ℕ) (buf : List ℕ) (size type : ℕ)
      → Holds A base s q
      → to_pid < 32
      → size + 31 < 2 ^ 32
      → ((s' : Ipc A base) × (ipc_send A base to_pid buf size type s ≡ done (1, s'))
          × Holds A base s' (post q to_pid (message_of to_pid buf size type)))
        ⊎ ((ipc_send A base to_pid buf size type s ≡ done (0, s))
            × (A.kmalloc (node_header + size) s.heap ≡ some (null, s.heap)))
  unfolding ipc_send
  ipc_send-post to_pid buf size type h lt small =
      let exact : add32 node_header size ≡ node_header + size = omega arith in
      rw (leb-false 32 to_pid lt, exact)
        (send_in-post (message_of to_pid buf size type) (node_header + size) h lt refl
          (omega arith))

  -- On a state that holds the queues `q`, a send to a process below 32 of a size from 2 ^ 32 - 31 to
  -- 2 ^ 32 - 1, for which the node's size or its rounding up wraps round, asks the allocator for the
  -- wrapped size: if that is refused, the send returns 0 with the queues as they were, and
  -- otherwise it copies the data past what was allocated.
  pub ipc_send_overruns :
      (to_pid : ℕ) (buf : List ℕ) (size type : ℕ)
      → Holds A base s q
      → to_pid < 32
      → 2 ^ 32 ≤ size + 31
      → size < 2 ^ 32
      → (node : Ptr) × (heap : A.State) × (A.kmalloc ((node_header + size) % 2 ^ 32) s.heap
          ≡ some (node, heap))
        × (((node ≡ null)
              × (ipc_send A base to_pid buf size type s ≡ done (0, record s { heap = heap })))
            ⊎ ((node ≢ null) × (ipc_send A base to_pid buf size type s ≡ overrun)))
  unfolding ipc_send send_in
  ipc_send_overruns to_pid buf size type (qs, v, view) lt lo hi =
      let (node, heap, ran, inv) = A.kmalloc_total (add32 node_header size) s.heap v.inv in
      elim (Bool-cases (node == null)) [
        | inl out ↦
            (node, heap, ran, inl (ground arith, rw (leb-false 32 to_pid lt, ran, out) refl))
        | inr got ↦
            let short : ltb (block_room A base (add32 node_header size)) (node_header + size)
                ≡ true =
              lt→ltb (block_room A base (add32 node_header size)) (node_header + size)
                (omega arith) in
            (node, heap, ran, inr (ground arith, rw (leb-false 32 to_pid lt, ran, got, short) refl))
      ]
