-- ===== src/Ipc/Receive.antt =====
-- `ipc_receive` and `ipc_process_messages` of kernel/src/ipc/ipc.c take the oldest message.
use mathlib.Core.List.{map}
use svetos_kernel.Base.{
  ℕ, ◌<◌, ◌≤◌, ◌≡◌, ◌≢◌, leb, inl, inr, refl, true, false, none, some, List, [], ◌∷◌, ◌==◌,
  if◌then◌else◌, ap, subst, sym, ◌∙◌, Bool-cases, leb-false, arith,
}
use svetos_kernel.Allocator.{Ptr, Allocator}
use svetos_kernel.Dll.{list_del, list_empty}
use svetos_kernel.Dll.Ring.{In, IsRing}
use svetos_kernel.Dll.Laws.{list_del-IsRing, list_del_other, list_empty-nil, list_empty-cons}
use svetos_kernel.Ipc.{
  Message, Ipc, done, Pointers, nothing, report, queue, node_header, drop_first, reply_to,
  receive_as, process_as,
}
use svetos_kernel.Ipc.Inv.{Queues, rest, taken, IsIpc, Holds, node-ne-queue}

abbrev popped : (ℕ → List Ptr) → ℕ → ℕ → List Ptr
popped qs pid i = if i == pid then rest (qs i) else qs i

In-rest : (p : Ptr) (xs : List Ptr) → In p (rest xs) → In p xs
In-rest p [] h = h
In-rest p (x ∷ xs) h = inr h

In-popped : (qs : ℕ → List Ptr) (pid i : ℕ) (p : Ptr) → In p (popped qs pid i) → In p (qs i)
In-popped qs pid i p h = elim (Bool-cases (i == pid)) [
  | inl hit ↦ let h' : In p (rest (qs i)) = rw hit at h in In-rest p (qs i) h'
  | inr miss ↦ let h' : In p (qs i) = rw miss at h in h'
]

map-rest : (f : Ptr → Message) (xs : List Ptr) → map f (rest xs) ≡ rest (map f xs)
map-rest f [] = refl
map-rest f (x ∷ xs) = refl

module _ (A : Allocator) (base : Ptr) (qs : ℕ → List Ptr) (s : Ipc A base) (v : IsIpc A base qs s)
    (pid : ℕ) (lt : pid < 32) (node : Ptr) (xs : List Ptr) (e : qs pid ≡ node ∷ xs) where
  node-In : In node (qs pid)
  node-In = rw e (inl refl)

  first-IsRing : IsRing s.links (queue A base pid) (node ∷ xs)
  first-IsRing = subst (IsRing s.links (queue A base pid)) e (v.rings pid lt)

  IsRing-of : (i : ℕ) → i < 32 → IsRing (list_del node s.links) (queue A base i) (popped qs pid i)
  IsRing-of i h = elim (Bool-cases (i == pid)) [
    | inl hit ↦
        let same : i ≡ pid = ground arith in
        rw hit (rw (same, e) (list_del-IsRing s.links (queue A base pid) node xs first-IsRing))
    | inr miss ↦
        let ne : i ≢ pid = ground arith in
        rw miss (
          list_del_other s.links (queue A base pid) node xs (queue A base i) (qs i) first-IsRing
            (v.rings i h) (λ e'. ne (omega arith))
            (λ j. node-ne-queue A base qs s i pid v h lt (subst (In (queue A base i)) (sym e) j))
            (node-ne-queue A base qs s pid i v lt h)
            (λ y j j'. ne (v.apart i pid y h lt j (subst (In y) (sym e) j'))))
  ]

  not_first : (i : ℕ) (p : Ptr) → i < 32 → In p (popped qs pid i) → p ≢ node
  not_first i p h j same = elim (Bool-cases (i == pid)) [
    | inl hit ↦
        let here : i ≡ pid = ground arith in
        let j' : In p (rest (qs i)) = rw hit at j in
        let j'' : In p xs = subst (λ l. In p (rest l)) (ap qs here ∙ e) j' in
        first-IsRing.1.0 (subst (λ z. In z xs) same j'')
    | inr miss ↦
        let j' : In p (qs i) = rw miss at j in
        let there : i ≡ pid =
          v.apart i pid p h lt j' (subst (λ z. In z (qs pid)) (sym same) node-In) in
        absurd (ground arith)
  ]

  -- The call that frees the node returns, and the other messages stay.
  drop_first-Holds :
      (q : Queues)
      → ((i : ℕ) → i < 32 → map s.message (qs i) ≡ q i)
      → (s' : Ipc A base) × (drop_first A base node s ≡ done s') × Holds A base s' (taken q pid)
  unfolding drop_first
  drop_first-Holds q view =
      let (heap, ran, inv, r) =
        A.kfree_lem node node_header s.heap v.inv (v.owned pid node lt node-In) (omega arith) in
      (
        record s { links = list_del node s.links; heap = heap },
        rw (ran, drop_first),
        (
          popped qs pid,
          record {
            inv = inv;
            rings = IsRing-of;
            owned = λ i p h j.
                r.kept p node_header (not_first i p h j) (v.owned i p h (In-popped qs pid i p j));
            apart = λ i j p hi hj x y.
                v.apart i j p hi hj (In-popped qs pid i p x) (In-popped qs pid j p y);
            below = v.below;
          },
          λ i h. elim (Bool-cases (i == pid)) [
            | inl hit ↦ rw (hit, map-rest) (ap rest (view i h))
            | inr miss ↦ rw miss (view i h)
          ],
        ),
      )

to_front :
    (f : Ptr → Message) (msg : Message) (ms : List Message) (xs : List Ptr)
    → map f xs ≡ msg ∷ ms
    → (node : Ptr) × (ys : List Ptr) × (xs ≡ node ∷ ys) × (f node ≡ msg)
to_front f msg ms [] e = cc
to_front f msg ms (x ∷ xs) e = (x, xs, refl, ground arith)

to_nil : (f : Ptr → Message) (xs : List Ptr) → map f xs ≡ [] → xs ≡ []
to_nil f [] e = refl
to_nil f (x ∷ xs) e = cc

-- A process from 32 on has no queue.
module _ (A : Allocator) (base : Ptr) (s : Ipc A base) (pid : ℕ) (far : 32 ≤ pid) where
  refuses : leb 32 pid ≡ true
  refuses = ground arith

  pub receive_as_far :
      (ptrs : Pointers) (size : ℕ) → receive_as A base pid ptrs size s ≡ done (nothing, s)
  unfolding receive_as
  receive_as_far ptrs size = rw refuses

  pub process_as_far : process_as A base pid s ≡ done (none, s)
  unfolding process_as
  process_as_far = rw refuses

module _ (A : Allocator) (base : Ptr) (q : Queues) (s : Ipc A base) (pid : ℕ) (h : Holds A base s q)
    (lt : pid < 32) where
  empty : q pid ≡ [] → list_empty (queue A base pid) s.links ≡ true
  empty none_left =
      let (qs, v, view) = h in
      let no_nodes = to_nil s.message (qs pid) (view pid lt ∙ none_left) in
      list_empty-nil s.links (queue A base pid)
        (subst (IsRing s.links (queue A base pid)) no_nodes (v.rings pid lt))

  first_message :
      (msg : Message) (ms : List Message)
      → q pid ≡ msg ∷ ms
      → (node : Ptr) × (s' : Ipc A base) × (list_empty (queue A base pid) s.links ≡ false)
        × (s.links.next (queue A base pid) ≡ node)
        × (s.message node ≡ msg)
        × (drop_first A base node s ≡ done s')
        × Holds A base s' (taken q pid)
  first_message msg ms some_left =
      let (qs, v, view) = h in
      let (node, xs, e, shows) = to_front s.message msg ms (qs pid) (view pid lt ∙ some_left) in
      let here =
        list_empty-cons s.links (queue A base pid) node xs
          (subst (IsRing s.links (queue A base pid)) e (v.rings pid lt)) in
      let (s', ran, h') = drop_first-Holds A base qs s v pid lt node xs e q view in
      (node, s', here.0, here.1, shows, ran, h')

  -- With no message waiting, a receive returns 0 and changes nothing.
  pub receive_as_empty :
      (ptrs : Pointers) (size : ℕ)
      → q pid ≡ []
      → receive_as A base pid ptrs size s ≡ done (nothing, s)
  unfolding receive_as
  receive_as_empty ptrs size none_left = rw (leb-false 32 pid lt, empty none_left)

  -- With no message waiting, processing changes nothing either.
  pub process_as_empty : q pid ≡ [] → process_as A base pid s ≡ done (none, s)
  unfolding process_as
  process_as_empty none_left = rw (leb-false 32 pid lt, empty none_left)

  pub receive_as-taken :
      (ptrs : Pointers) (size : ℕ) (msg : Message) (ms : List Message)
      → q pid ≡ msg ∷ ms
      → (s' : Ipc A base) × (receive_as A base pid ptrs size s
          ≡ done (reply_to A base ptrs size msg, s'))
        × Holds A base s' (taken q pid)
  unfolding receive_as
  receive_as-taken ptrs size msg ms some_left =
      let (node, s', full, next, shows, ran, h') = first_message msg ms some_left in
      (s', rw (leb-false 32 pid lt, full, next, ran, shows), h')

  -- On a state that holds the queues `q`, processing by a process below 32 with a message waiting
  -- returns, reports the oldest message by its type, takes it alone off the queue, and leaves every
  -- other queue as it is.
  pub process_as-taken :
      (msg : Message) (ms : List Message)
      → q pid ≡ msg ∷ ms
      → (s' : Ipc A base) × (process_as A base pid s ≡ done (some (report msg), s'))
        × Holds A base s' (taken q pid)
  unfolding process_as
  process_as-taken msg ms some_left =
      let (node, s', full, next, shows, ran, h') = first_message msg ms some_left in
      (s', rw (leb-false 32 pid lt, full, next, ran, shows), h')
