-- ===== src/NodePool/Add.antt =====
-- The insertions of a2-phase2/list_adders.c. A LIST argument is an index into the pool of lists, an
-- item a number; `none` is NULL. Messages are left out but where the program reads a node to print.
pub mod Append
pub mod Prepend
pub mod Splice
pub mod Between
pub mod AtTail
use monitors_and_ipc.Prelude.{
  ℕ, ◌+◌, Bool, true, false, ◌||◌, Option, none, some, ◌==◌, if◌then◌else◌, is_zero, ℤ, pos,
  minus_one,
}
use monitors_and_ipc.NodePool.{
  Index, Item, LinkedList, Cmd, fault, pure, ◌>>=◌, ◌>>◌, when, load, set_item, set_next, set_prev,
  get_list, change_list,
}
use monitors_and_ipc.NodePool.Alloc.{node_allocator}

-- C's test `a == b` of two indices.
abbrev pub same_index : Index → Index → Bool
same_index none none = true
same_index none (some j) = false
same_index (some i) none = false
same_index (some i) (some j) = i == j

abbrev pub is_valid : Index → Bool
is_valid none = false
is_valid (some i) = true

abbrev pub print_through : Item → Cmd (Unit {0})
print_through none = λ p. fault
print_through (some x) = pure tt

-- `printf("…%d", *(int *)pool_nodes[i].item)` reads through the item of node `i`.
abbrev pub print_item : Index → Cmd (Unit {0})
print_item i = do n ← load i; print_through n.item

-- Both ends of an empty list, as ListAppend and ListPrepend set them.
abbrev pub start_at : ℕ → LinkedList → LinkedList
start_at i l = record l {
  head = some i;
  tail = some i;
  curr = some i;
  before = false;
  after = false;
}

-- ListAppend once a node is allocated.
unfoldable pub append_node : ℕ → ℕ → ℕ → Cmd ℤ
append_node l x i = do
  set_item (some i) (some x)
  a ← get_list l
  when (is_zero a.count) (change_list l (start_at i))
  b ← get_list l
  set_prev (some i) b.tail
  set_next b.tail (some i)
  change_list l λ r. record r { tail = some i; count = r.count + 1; before = false; after = false }
  pure (pos 0)

unfoldable pub list_append : Option ℕ → Item → Cmd ℤ
list_append none item = pure minus_one
list_append (some l) none = pure minus_one
list_append (some l) (some x) = do
  new ← node_allocator
  elim new [ none ↦ pure minus_one | some i ↦ append_node l x i ]

-- ListPrepend once a node is allocated.
unfoldable pub prepend_node : ℕ → ℕ → ℕ → Cmd ℤ
prepend_node l x i = do
  set_item (some i) (some x)
  a ← get_list l
  when (is_zero a.count) (change_list l (start_at i))
  set_item (some i) (some x)
  b ← get_list l
  set_next (some i) b.head
  set_prev (some i) none
  set_prev b.head (some i)
  change_list l λ r. record r { head = some i; count = r.count + 1 }
  c ← get_list l
  print_item c.curr
  pure (pos 0)

unfoldable pub list_prepend : Option ℕ → Item → Cmd ℤ
list_prepend none item = pure minus_one
list_prepend (some l) none = pure minus_one
list_prepend (some l) (some x) = do
  new ← node_allocator
  elim new [ none ↦ pure minus_one | some i ↦ prepend_node l x i ]

-- ListAdd at a cursor on a node, once a node is allocated.
unfoldable pub add_node : ℕ → ℕ → ℕ → Cmd ℤ
add_node l x i = do
  a ← get_list l
  set_prev (some i) a.curr
  set_item (some i) (some x)
  c ← load a.curr
  set_next (some i) c.next
  when (is_valid c.next) (set_prev c.next (some i))
  set_next a.curr (some i)
  change_list l λ r. record r { count = r.count + 1 }
  pure (pos 0)

unfoldable pub list_add : Option ℕ → Item → Cmd ℤ
list_add none item = pure minus_one
list_add (some l) none = pure minus_one
list_add (some l) (some x) = do
  a ← get_list l
  if is_zero a.count || a.after || same_index a.curr none
      then list_append (some l) (some x)
      else if a.before
      then list_prepend (some l) (some x)
      else do new ← node_allocator; elim new [ none ↦ pure minus_one | some i ↦ add_node l x i ]

-- ListInsert at a cursor on a node, once a node is allocated.
unfoldable pub insert_node : ℕ → ℕ → ℕ → Cmd ℤ
insert_node l x i = do
  set_item (some i) (some x)
  a ← get_list l
  set_next (some i) a.curr
  c ← load a.curr
  set_prev (some i) c.prev
  when (is_valid c.prev) (set_next c.prev (some i))
  set_prev a.curr (some i)
  when (same_index a.head a.curr) (change_list l λ r. record r { head = some i })
  change_list l λ r. record r { curr = some i; count = r.count + 1 }
  b ← get_list l
  print_item b.curr
  pure (pos 0)

unfoldable pub list_insert : Option ℕ → Item → Cmd ℤ
list_insert none item = pure minus_one
list_insert (some l) none = pure minus_one
list_insert (some l) (some x) = do
  a ← get_list l
  if is_zero a.count
      then list_append (some l) (some x)
      else if a.before
      then list_prepend (some l) (some x)
      else if a.after
      then list_append (some l) (some x)
      else do new ← node_allocator; elim new [ none ↦ pure minus_one | some i ↦ insert_node l x i ]
