-- ===== src/NodePool/Remove.antt =====
-- a2-phase2/list_removers.c but for ListCreate. The messages are left out.
pub mod Inside
pub mod AtFirst
pub mod AtLast
pub mod Only
pub mod Free
pub mod Concat
pub mod Trim
use monitors_and_ipc.Prelude.{
  ℕ, zero, suc, ◌+◌, ◌-◌, true, false, ◌||◌, Option, none, some, ◌==◌, if◌then◌else◌, is_zero,
}
use monitors_and_ipc.NodePool.{
  Index, Item, LinkedList, Cmd, pure, ◌>>=◌, ◌>>◌, load, set_item, set_next, set_prev, set_link,
  get_list, change_list, get_pool, change_pool,
}
use monitors_and_ipc.NodePool.Add.{same_index, is_valid}
use monitors_and_ipc.NodePool.Move.{list_first, list_last, list_next, list_curr, stand_on}

-- The cursor after a removal: nowhere in an empty list, else on the next node or the previous one.
abbrev pub settle : Index → Index → LinkedList → LinkedList
settle prev next a =
    if is_zero a.count
    then record a { curr = none; before = true; after = false }
    else stand_on (if is_valid next then next else prev) a

-- The node `i` goes back to the free list, and its neighbours are joined.
unfoldable pub unlink_node : ℕ → Index → Cmd Item
unlink_node l i = do
  c ← load i
  set_item i none
  set_next i none
  set_prev i none
  p ← get_pool
  set_link i p.free_node_head
  change_pool λ q. record q { free_node_head = i }
  if is_valid c.prev then set_next c.prev c.next else change_list l λ r. record r { head = c.next }
  if is_valid c.next then set_prev c.next c.prev else change_list l λ r. record r { tail = c.prev }
  change_list l λ r. record r { count = r.count - 1 }
  change_list l (settle c.prev c.next)
  pure c.item

unfoldable pub list_remove : Option ℕ → Cmd Item
list_remove none = pure none
list_remove (some l) = do
  a ← get_list l
  if is_zero a.count || same_index a.curr none || a.before || a.after
      then pure none
      else unlink_node l a.curr

-- A list as it is given back to the pool of lists.
abbrev pub retire : Index → LinkedList → LinkedList
retire free a = record a {
  head = none;
  tail = none;
  curr = none;
  count = 0;
  before = true;
  after = false;
  link = free;
}

unfoldable pub list_concat : Option ℕ → Option ℕ → Cmd (Unit {0})
list_concat none other = pure tt
list_concat (some l) none = pure tt
list_concat (some l) (some m) = do
  b ← get_list m
  if is_zero b.count then pure tt else do
    a ← get_list l
    set_next a.tail b.head
    set_prev b.head a.tail
    change_list l λ r. record r { tail = b.tail }
    c ← get_list m
    change_list l λ r. record r { count = r.count + c.count }
    p ← get_pool
    change_list m (retire p.free_list_head)
    change_pool λ q. record q { free_list_head = some m }

module _ {W : Type 0} where
  -- `if (item != NULL) (*itemFree)(item);`
  abbrev pub offer : (ℕ → W → W) → Item → W → W
  offer item_free none w = w
  offer item_free (some x) w = item_free x w

  -- One round of the loop of ListFree.
  unfoldable pub free_round : (ℕ → W → W) → ℕ → W → Cmd W
  free_round item_free l w = do
    item ← list_curr (some l)
    list_next (some l)
    change_list l λ r. record r { count = r.count - 1 }
    pure (offer item_free item w)

  -- `while (list->count > 0)`: each round takes one off the count, so there are as many rounds.
  unfoldable pub free_loop : (ℕ → W → W) → ℕ → ℕ → W → Cmd W
  free_loop item_free zero l w = pure w
  free_loop item_free (suc rounds) l w = do
    w' ← free_round item_free l w
    free_loop item_free rounds l w'

  -- `itemFree` is the client's: it acts on the client's state, and not on the pools.
  unfoldable pub list_free : Option ℕ → Option (ℕ → W → W) → W → Cmd W
  list_free none item_free w = pure w
  list_free (some l) none w = pure w
  list_free (some l) (some item_free) w = do
    list_first (some l)
    a ← get_list l
    w' ← free_loop item_free a.count l w
    p ← get_pool
    change_list l (retire p.free_list_head)
    change_pool λ q. record q { free_list_head = some l }
    pure w'

unfoldable pub list_trim : Option ℕ → Cmd Item
list_trim none = pure none
list_trim (some l) = do
  a ← get_list l
  if is_zero a.count
      then pure none
      else if same_index a.curr a.tail
      then list_remove (some l)
      else do
        list_last (some l)
        item ← list_remove (some l)
        change_list l λ r. record r { curr = a.curr }
        pure item
