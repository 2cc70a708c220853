-- ===== src/LinkedList.antt =====
-- Doubly linked lists, kernel/kern/list.c and kernel/include/micro/list.h, over a store of nodes by their
-- addresses; 0 is the null pointer. The address that `kmalloc` gives is an argument.
pub mod Segments
pub mod Links
pub mod Ends
pub mod Middle
pub mod Inserts
mod Tests
use micro.Prelude.{
  ℕ, zero, suc, ◌+◌, ◌-◌, ◌%◌, ◌^◌, Option, none, some, if◌then◌else◌, ◌==◌, put, sub_size,
  add_size,
}

-- `struct lnode`
pub record Node : Type 0 where
  pub next : ℕ
  pub prev : ℕ
  pub datum : ℕ

abbrev pub Nodes : Type 0
Nodes = ℕ → Node

-- `struct list`
pub record LinkedList : Type 0 where
  pub head : ℕ
  pub tail : ℕ
  pub size : ℕ

abbrev pub ListState : Type 0
ListState = Nodes × LinkedList

unfoldable pub list_create : LinkedList
list_create = record { head = 0; tail = 0; size = 0 }

-- `if (a) a->next = n; else list->head = n;`
unfoldable pub link_next : ListState → (a n : ℕ) → ListState
link_next (h, self) a n =
    if a == 0 then (h, record self { head = n }) else (put h a (record (h a) { next = n }), self)

-- `if (a) a->prev = p; else list->tail = p;`
unfoldable pub link_prev : ListState → (a p : ℕ) → ListState
link_prev (h, self) a p =
    if a == 0 then (h, record self { tail = p }) else (put h a (record (h a) { prev = p }), self)

unfoldable pub set_tail : ListState → (a : ℕ) → ListState
set_tail (h, self) a = (h, record self { tail = a })

unfoldable pub set_head : ListState → (a : ℕ) → ListState
set_head (h, self) a = (h, record self { head = a })

unfoldable pub set_size : ListState → (n : ℕ) → ListState
set_size (h, self) n = (h, record self { size = n })

unfoldable pub list_enqueue : ListState → (node datum : ℕ) → ListState
list_enqueue (h, self) node datum =
    let h' = put h node (record { next = 0; prev = self.tail; datum = datum }) in
    set_size (set_tail (link_next (h', self) self.tail node) node) (add_size self.size 1)

-- What is returned, 0 for an empty list, and the state. The node that is freed is not read again.
unfoldable pub list_dequeue : ListState → ℕ × ListState
list_dequeue (h, self) =
    let head' = (h self.head).next in
    if self.head == 0 then (0, (h, self)) else (
      (h self.head).datum,
      set_size (link_prev (set_head (h, self) head') head' 0) (sub_size self.size 1),
    )

unfoldable pub list_pop_back : ListState → ℕ × ListState
list_pop_back (h, self) =
    let tail' = (h self.tail).prev in
    if self.tail == 0 then (0, (h, self)) else (
      (h self.tail).datum,
      set_size (link_next (set_tail (h, self) tail') tail' 0) (sub_size self.size 1),
    )

-- The loop of `list_clear`, on fuel: none when it has not ended within it.
unfoldable pub list_clear : (fuel : ℕ) → ListState → Option ListState
list_clear zero s = if s.1.size == 0 then some s else none
list_clear (suc fuel) s =
    let rest = list_clear fuel (list_dequeue s).1 in if s.1.size == 0 then some s else rest

-- `_list_get_impl`: the node that is `i` steps behind another.
unfoldable pub node_at : Nodes → (node i : ℕ) → ℕ
node_at h node zero = node
node_at h node (suc i) = node_at h (h node).next i

unfoldable pub list_get : ListState → (i : ℕ) → ℕ
list_get (h, self) i = (h (node_at h self.head i)).datum

unfoldable pub list_set : ListState → (i datum : ℕ) → ListState
list_set (h, self) i datum =
    let node = node_at h self.head i in (put h node (record (h node) { datum = datum }), self)

unfoldable pub list_remove : ListState → (i : ℕ) → ℕ × ListState
list_remove (h, self) i =
    let node = h (node_at h self.head i) in
    (node.datum, link_next (link_prev (h, self) node.next node.prev) node.prev node.next)

unfoldable pub list_back : ListState → ℕ
list_back (h, self) = (h self.tail).datum

unfoldable pub list_insert_after : ListState → (i new datum : ℕ) → ListState
list_insert_after (h, self) i new datum =
    let node = node_at h self.head i in
    let next = (h node).next in
    let h' = put h new (record { next = next; prev = node; datum = datum }) in
    link_next (link_prev (h', self) next new) node new

unfoldable pub list_insert_before : ListState → (i new datum : ℕ) → ListState
list_insert_before (h, self) i new datum =
    let node = node_at h self.head i in
    let prev = (h node).prev in
    let h' = put h new (record { next = node; prev = prev; datum = datum }) in
    link_prev (link_next (h', self) prev new) node new
