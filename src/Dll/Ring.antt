-- ===== src/Dll/Ring.antt =====
-- The nodes that a list holds, in order.
use svetos_kernel.Base.{◌≡◌, ◌⊎◌, List, [], ◌∷◌}
use svetos_kernel.Dll.{Ptr, Links}

abbrev pub In : Ptr → List Ptr → Type 0
In p [] = ⊥
In p (x ∷ xs) = (p ≡ x) ⊎ In p xs

abbrev pub Distinct : List Ptr → Type 0
Distinct [] = Unit {0}
Distinct (x ∷ xs) = (¬ In x xs) × Distinct xs

-- Links lead from `a` through `xs` to `b`, and back.
abbrev pub Linked : Links → Ptr → List Ptr → Ptr → Type 0
Linked s a [] b = (s.next a ≡ b) × (s.prev b ≡ a)
Linked s a (x ∷ xs) b = (s.next a ≡ x) × (s.prev x ≡ a) × Linked s x xs b

-- The list at `head` holds the distinct nodes `xs`.
abbrev pub IsRing : Links → Ptr → List Ptr → Type 0
IsRing s head xs = Linked s head xs head × Distinct xs × ¬ In head xs
