-- ===== src/Ipc/Inv.antt =====
-- The queues that a state of the message system holds.
use mathlib.Core.List.{map}
use svetos_kernel.Base.{
  ℕ, zero, suc, ◌+◌, ◌≤◌, ◌<◌, ◌≡◌, inl, inr, refl, List, [], ◌∷◌, ◌++◌, ◌==◌, if◌then◌else◌,
  Bool-cases, arith,
}
use svetos_kernel.Allocator.{Ptr, Allocator}
use svetos_kernel.Dll.{Links, init_list_head}
use svetos_kernel.Dll.Ring.{In, IsRing}
use svetos_kernel.Dll.Laws.{init_list_head-IsRing, init_list_head_other}
use svetos_kernel.Ipc.{Message, Ipc, queue, node_header, init_from, ipc_init}

-- the messages that wait for each process, oldest first
abbrev pub Queues : Type 0
Queues = ℕ → List Message

abbrev pub post : Queues → ℕ → Message → Queues
post q to msg i = if i == to then q i ++ msg ∷ [] else q i

abbrev pub rest {ℓ} : {A : Type ℓ} → List A → List A
rest [] = []
rest (x ∷ xs) = xs

abbrev pub taken : Queues → ℕ → Queues
taken q pid i = if i == pid then rest (q i) else q i

module _ (A : Allocator) (base : Ptr) where
  -- `qs i` are the nodes in the queue of process `i`. Nodes are blocks in use, no node is in two
  -- queues, and the queues' heads lie below the arena.
  pub record IsIpc (qs : ℕ → List Ptr) (s : Ipc A base) : Type 0 where
    pub inv : A.Inv s.heap
    pub rings : (i : ℕ) → i < 32 → IsRing s.links (queue A base i) (qs i)
    pub owned : (i : ℕ) (p : Ptr) → i < 32 → In p (qs i) → A.Owned s.heap p node_header
    pub apart : (i j : ℕ) (p : Ptr) → i < 32 → j < 32 → In p (qs i) → In p (qs j) → i ≡ j
    pub below : base + 256 ≤ A.low

  -- The state holds the messages `q`.
  abbrev pub Holds : Ipc A base → Queues → Type 0
  Holds s q = (qs : ℕ → List Ptr) × IsIpc qs s × ((i : ℕ) → i < 32 → map s.message (qs i) ≡ q i)

  pub node-ne-queue :
      (qs : ℕ → List Ptr) (s : Ipc A base) (i j : ℕ)
      → IsIpc qs s
      → i < 32
      → j < 32
      → ¬ In (queue A base i) (qs j)
  node-ne-queue qs s i j v hi hj h =
      let above =
        A.Owned-low (queue A base i) node_header s.heap (v.owned j (queue A base i) hj h) in
      omega (arith, v.below)

  -- What the loop of `ipc_init` has set up after index `i`.
  init_from-IsRing :
      (left i : ℕ) (l : Links)
      → ((j : ℕ) → j < i → IsRing l (queue A base j) [])
      → (j : ℕ) → j < i + left
      → IsRing (init_from A base left i l) (queue A base j) []
  unfolding init_from
  init_from-IsRing zero i l h j lt = h j (omega arith)
  init_from-IsRing (suc left) i l h j lt =
      init_from-IsRing left (i + 1) (init_list_head (queue A base i) l) (λ k lt'. step k lt') j
        (omega arith)
    where
      step : (k : ℕ) → k < i + 1 → IsRing (init_list_head (queue A base i) l) (queue A base k) []
      step k lt' = elim (Bool-cases (k == i)) [
        | inl e ↦
            let same : k ≡ i = ground arith in rw same (init_list_head-IsRing l (queue A base i))
        | inr ne ↦
            init_list_head_other l (queue A base i) (queue A base k) [] (h k (ground arith))
              (ground arith) (λ x. x)
      ]

  -- `ipc_init` leaves 32 empty queues.
  pub ipc_init-Holds :
      (s : Ipc A base) → A.Inv s.heap → base + 256 ≤ A.low → Holds (ipc_init A base s) (λ i. [])
  unfolding ipc_init
  ipc_init-Holds s inv below = (
    λ i. [],
    record {
      inv = inv;
      rings = λ i lt. init_from-IsRing 32 0 s.links (λ j l. absurd (omega arith)) i (omega arith);
      owned = λ i p lt h. absurd h;
      apart = λ i j p hi hj h h'. absurd h;
      below = below;
    },
    λ i lt. refl,
  )
