-- ===== src/Dll.antt =====
-- The circular doubly linked list of include/kernel/list.h. The two fields of every
-- `struct list_head` are functions of its address.
pub mod Ring
pub mod Laws
mod Tests
use svetos_kernel.Base.{ℕ, zero, suc, Bool, Option, none, some, List, ◌==◌, if◌then◌else◌}

abbrev pub Ptr : Type 0
Ptr = ℕ

abbrev pub null : Ptr
null = 0

pub record Links : Type 0 where
  pub next : Ptr → Ptr
  pub prev : Ptr → Ptr

abbrev pub write : (Ptr → Ptr) → Ptr → Ptr → Ptr → Ptr
write f p v a = if a == p then v else f a

-- `p->next = v` and `p->prev = v`
abbrev pub set_next : Ptr → Ptr → Links → Links
set_next p v s = record s { next = write s.next p v }

abbrev pub set_prev : Ptr → Ptr → Links → Links
set_prev p v s = record s { prev = write s.prev p v }

unfoldable pub init_list_head : Ptr → Links → Links
init_list_head list s = set_prev list list (set_next list list s)

-- `__list_add`
unfoldable pub add_between : (new prev next : Ptr) → Links → Links
add_between new prev next s =
    set_next prev new (set_prev new prev (set_next new next (set_prev next new s)))

unfoldable pub list_add_tail : (new head : Ptr) → Links → Links
unfolding add_between
list_add_tail new head s = add_between new (s.prev head) head s

-- `__list_del`
unfoldable pub del_between : (prev next : Ptr) → Links → Links
del_between prev next s = set_next prev next (set_prev next prev s)

unfoldable pub list_del : Ptr → Links → Links
unfolding del_between
list_del entry s =
    set_prev entry null (set_next entry null (del_between (s.prev entry) (s.next entry) s))

unfoldable pub list_empty : Ptr → Links → Bool
list_empty head s = s.next head == head
