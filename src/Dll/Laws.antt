-- ===== src/Dll/Laws.antt =====
-- Each operation of include/kernel/list.h on a list, and on a list that it does not touch.
use svetos_kernel.Base.{
  ◌≡◌, ◌≢◌, ◌⊎◌, inl, inr, refl, true, false, List, [], ◌∷◌, ◌++◌, sym, subst, ◌∙◌, arith,
}
use svetos_kernel.Dll.{
  Ptr, Links, init_list_head, add_between, list_add_tail, del_between, list_del, list_empty,
}
use svetos_kernel.Dll.Ring.{In, Distinct, Linked, IsRing}

-- A list depends on the links of its own nodes only.
pub Linked-frame :
    (s t : Links) (a : Ptr) (xs : List Ptr) (b : Ptr)
    → t.next a ≡ s.next a
    → t.prev b ≡ s.prev b
    → ((x : Ptr) → In x xs → (t.next x ≡ s.next x) × (t.prev x ≡ s.prev x))
    → Linked s a xs b
    → Linked t a xs b
Linked-frame s t a [] b n p same l = (n ∙ l.0, p ∙ l.1)
Linked-frame s t a (x ∷ xs) b n p same l =
    let here = same x (inl refl) in
    (n ∙ l.0, here.1 ∙ l.1, Linked-frame s t x xs b here.0 p (λ y i. same y (inr i)) l.2)

-- the last node before `b`
abbrev last : Ptr → List Ptr → Ptr
last a [] = a
last a (x ∷ xs) = last x xs

prev-last : (s : Links) (a : Ptr) (xs : List Ptr) (b : Ptr) → Linked s a xs b → s.prev b ≡ last a xs
prev-last s a [] b l = l.1
prev-last s a (x ∷ xs) b l = prev-last s x xs b l.2

In-last : (a : Ptr) (xs : List Ptr) → (last a xs ≡ a) ⊎ In (last a xs) xs
In-last a [] = inl refl
In-last a (x ∷ xs) = elim (In-last x xs) [ inl e ↦ inr (inl e) | inr i ↦ inr (inr i) ]

pub In-append : (p y : Ptr) (xs : List Ptr) → In p (xs ++ y ∷ []) → In p xs ⊎ (p ≡ y)
In-append p y [] (inl e) = inr e
In-append p y [] (inr i) = absurd i
In-append p y (x ∷ xs) (inl e) = inl (inl e)
In-append p y (x ∷ xs) (inr i) = elim (In-append p y xs i) [ inl j ↦ inl (inr j) | inr e ↦ inr e ]

Distinct-append : (y : Ptr) (xs : List Ptr) → Distinct xs → ¬ In y xs → Distinct (xs ++ y ∷ [])
Distinct-append y [] d out = (λ i. i, tt)
Distinct-append y (x ∷ xs) d out = (
  λ i. elim (In-append x y xs i) [ inl j ↦ d.0 j | inr e ↦ out (inl (sym e)) ],
  Distinct-append y xs d.1 (λ i. out (inr i)),
)

-- Adding `new` between the last node and `b`.
Linked-add :
    (s : Links) (new a : Ptr) (xs : List Ptr) (b : Ptr)
    → Linked s a xs b
    → Distinct xs
    → ¬ In a xs
    → ¬ In b xs
    → new ≢ a
    → new ≢ b
    → ¬ In new xs
    → Linked (add_between new (last a xs) b s) a (xs ++ new ∷ []) b
unfolding add_between
Linked-add s new a [] b l d a_out b_out na nb out = ground arith
Linked-add s new a (x ∷ xs) b l d a_out b_out na nb out =
    let x_out : new ≢ x = λ e. out (inl e) in
    let rest =
      Linked-add s new x xs b l.2 d.1 d.0 (λ i. b_out (inr i)) x_out nb (λ i. out (inr i)) in
    let apart : last x xs ≢ a = λ e. elim (In-last x xs) [
      | inl e' ↦ a_out (inl (sym e ∙ e'))
      | inr i ↦ a_out (inr (subst (λ z. In z xs) e i))
    ] in
    (ground arith, ground arith, rest)

-- `list_add_tail` of a node that is not on the list puts it behind all others.
pub list_add_tail-IsRing :
    (s : Links) (new head : Ptr) (xs : List Ptr)
    → IsRing s head xs
    → new ≢ head
    → ¬ In new xs
    → IsRing (list_add_tail new head s) head (xs ++ new ∷ [])
unfolding list_add_tail
list_add_tail-IsRing s new head xs r ne out = (
  rw (prev-last s head xs head r.0) (Linked-add s new head xs head r.0 r.1 r.2 r.2 ne ne out),
  Distinct-append new xs r.1 out,
  λ i. elim (In-append head new xs i) [ inl j ↦ r.2 j | inr e ↦ ne (sym e) ],
)

not_last : (y a : Ptr) (xs : List Ptr) → y ≢ a → ¬ In y xs → y ≢ last a xs
not_last y a [] n i = n
not_last y a (x ∷ xs) n i = not_last y x xs (λ e. i (inl e)) (λ j. i (inr j))

-- It leaves every other list alone.
pub list_add_tail_other :
    (s : Links) (new head : Ptr) (xs : List Ptr) (other : Ptr) (ys : List Ptr)
    → IsRing s head xs
    → IsRing s other ys
    → other ≢ head
    → new ≢ other
    → ¬ In new ys
    → ¬ In other xs
    → ¬ In head ys
    → ((y : Ptr) → In y ys → ¬ In y xs)
    → IsRing (list_add_tail new head s) other ys
unfolding list_add_tail add_between
list_add_tail_other s new head xs other ys r o ne fresh out o_out h_out apart =
    let back = prev-last s head xs head r.0 in
    let apart_last : (y : Ptr) → y ≢ head → ¬ In y xs → y ≢ s.prev head =
      λ y n i. rw back (not_last y head xs n i) in
    let o_last = apart_last other ne o_out in
    (
      Linked-frame s (list_add_tail new head s) other ys other (ground arith) (ground arith)
          (λ y i.
            let y_new : y ≢ new = λ e. out (subst (λ z. In z ys) e i) in
            let y_head : y ≢ head = λ e. h_out (subst (λ z. In z ys) e i) in
            let y_last = apart_last y y_head (apart y i) in (ground arith, ground arith))
          o.0,
      o.1,
      o.2,
    )

Linked-del :
    (s : Links) (a x : Ptr) (xs : List Ptr) (b : Ptr)
    → Linked s a (x ∷ xs) b
    → Distinct (x ∷ xs)
    → ¬ In a (x ∷ xs)
    → ¬ In b (x ∷ xs)
    → Linked (list_del x s) a xs b
unfolding list_del del_between
Linked-del s a x [] b l d a_out b_out =
    let ax : a ≢ x = λ e. a_out (inl e) in
    let bx : b ≢ x = λ e. b_out (inl e) in (ground arith, ground arith)
Linked-del s a x (y ∷ ys) b l d a_out b_out =
    let ax : a ≢ x = λ e. a_out (inl e) in
    let bx : b ≢ x = λ e. b_out (inl e) in
    let by : b ≢ y = λ e. b_out (inr (inl e)) in
    let yx : y ≢ x = λ e. d.0 (inl (sym e)) in
    let ya : y ≢ a = λ e. a_out (inr (inl (sym e))) in
    (
      ground arith,
      ground arith,
      Linked-frame s (list_del x s) y ys b (ground arith) (ground arith)
          (λ z i.
            let zx : z ≢ x = λ e. d.0 (inr (subst (λ w. In w ys) e i)) in
            let za : z ≢ a = λ e. a_out (inr (inr (subst (λ w. In w ys) e i))) in
            let zy : z ≢ y = λ e. d.1.0 (subst (λ w. In w ys) e i) in (ground arith, ground arith))
          l.2.2,
    )

-- `list_del` of the first node leaves the others.
pub list_del-IsRing :
    (s : Links) (head x : Ptr) (xs : List Ptr)
    → IsRing s head (x ∷ xs)
    → IsRing (list_del x s) head xs
list_del-IsRing s head x xs r =
    (Linked-del s head x xs head r.0 r.1 r.2 r.2, r.1.1, λ i. r.2 (inr i))

next-In :
    (s : Links) (x : Ptr) (xs : List Ptr) (b : Ptr)
    → Linked s x xs b
    → (s.next x ≡ b) ⊎ In (s.next x) xs
next-In s x [] b l = inl l.0
next-In s x (y ∷ ys) b l = inr (inl l.0)

-- `list_del` of the first node of a list leaves every other list as it is.
pub list_del_other :
    (s : Links) (head x : Ptr) (xs : List Ptr) (other : Ptr) (ys : List Ptr)
    → IsRing s head (x ∷ xs)
    → IsRing s other ys
    → other ≢ head
    → ¬ In other (x ∷ xs)
    → ¬ In head ys
    → ((y : Ptr) → In y ys → ¬ In y (x ∷ xs))
    → IsRing (list_del x s) other ys
unfolding list_del del_between
list_del_other s head x xs other ys r o ne o_out h_out apart =
    let apart_next : (y : Ptr) → y ≢ head → ¬ In y (x ∷ xs) → y ≢ s.next x = λ y n i e.
      elim (next-In s x xs head r.0.2) [
        | inl e' ↦ n (e ∙ e')
        | inr j ↦ i (inr (subst (λ z. In z xs) (sym e) j))
      ] in
    let o_next = apart_next other ne o_out in
    let o_x : other ≢ x = λ e. o_out (inl e) in
    let first = r.0.1 in
    (
      Linked-frame s (list_del x s) other ys other (ground arith) (ground arith)
          (λ y i.
            let y_head : y ≢ head = λ e. h_out (subst (λ z. In z ys) e i) in
            let y_next = apart_next y y_head (apart y i) in
            let y_x : y ≢ x = λ e. apart y i (inl e) in (ground arith, ground arith))
          o.0,
      o.1,
      o.2,
    )

pub init_list_head-IsRing : (s : Links) (head : Ptr) → IsRing (init_list_head head s) head []
unfolding init_list_head
init_list_head-IsRing s head = (ground arith, tt, λ i. i)

pub init_list_head_other :
    (s : Links) (head other : Ptr) (ys : List Ptr)
    → IsRing s other ys
    → other ≢ head
    → ¬ In head ys
    → IsRing (init_list_head head s) other ys
unfolding init_list_head
init_list_head_other s head other ys o ne h_out = (
  Linked-frame s (init_list_head head s) other ys other (ground arith) (ground arith)
      (λ y i.
        let y_head : y ≢ head = λ e. h_out (subst (λ z. In z ys) e i) in
        (ground arith, ground arith))
      o.0,
  o.1,
  o.2,
)

-- `list_empty` tells whether the list has a node.
pub list_empty-nil : (s : Links) (head : Ptr) → IsRing s head [] → list_empty head s ≡ true
unfolding list_empty
list_empty-nil s head r = ground arith

pub list_empty-cons :
    (s : Links) (head x : Ptr) (xs : List Ptr)
    → IsRing s head (x ∷ xs)
    → (list_empty head s ≡ false) × (s.next head ≡ x)
unfolding list_empty
list_empty-cons s head x xs r = let n : head ≢ x = λ e. r.2 (inl e) in (ground arith, r.0.0)
