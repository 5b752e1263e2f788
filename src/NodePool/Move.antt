-- ===== src/NodePool/Move.antt =====
-- a2-phase2/list_movers.c: the cursor, and the search from it. The messages are left out.
pub mod Walk
pub mod Search
use monitors_and_ipc.Prelude.{
  ℕ, zero, suc, Bool, true, false, ◌&&◌, Option, none, some, ◌==◌, if◌then◌else◌, is_zero, ltb, ℤ,
  pos, negsuc, minus_one,
}
use monitors_and_ipc.NodePool.{
  Index, Item, LinkedList, Cmd, out_of_fuel, pure, ◌>>=◌, ◌>>◌, when, load, get_list, change_list,
}

unfoldable pub list_count : Option ℕ → Cmd ℤ
list_count none = pure minus_one
list_count (some l) = do a ← get_list l; pure (pos a.count)

-- The cursor on the node `i`, on neither side of the list.
abbrev pub stand_on : Index → LinkedList → LinkedList
stand_on i a = record a { curr = i; before = false; after = false }

unfoldable pub list_first : Option ℕ → Cmd Item
list_first none = pure none
list_first (some l) = do
  a ← get_list l
  if is_zero a.count
      then pure none
      else do change_list l (stand_on a.head); n ← load a.head; pure n.item

unfoldable pub list_last : Option ℕ → Cmd Item
list_last none = pure none
list_last (some l) = do
  a ← get_list l
  if is_zero a.count
      then pure none
      else do change_list l (stand_on a.tail); n ← load a.tail; pure n.item

-- What ListNext and ListPrev return for the new cursor; past an end they set the flags.
abbrev pub arrive : ℕ → (LinkedList → LinkedList) → Index → Cmd Item
arrive l leave none = do change_list l leave; pure none
arrive l leave (some i) = do n ← load (some i); pure n.item

unfoldable pub list_next : Option ℕ → Cmd Item
list_next none = pure none
list_next (some l) = do
  a ← get_list l
  if a.after then pure none else do
    c ← load a.curr
    change_list l λ r. record r { curr = c.next }
    arrive l (λ r. record r { after = true; before = false }) c.next

unfoldable pub list_prev : Option ℕ → Cmd Item
list_prev none = pure none
list_prev (some l) = do
  a ← get_list l
  if a.before then pure none else do
    c ← load a.curr
    change_list l λ r. record r { curr = c.prev }
    arrive l (λ r. record r { before = true; after = false }) c.prev

-- The item of the cursor's node, if the cursor is on one.
abbrev pub item_at : Index → Cmd Item
item_at none = pure none
item_at (some i) = do n ← load (some i); pure n.item

unfoldable pub list_curr : Option ℕ → Cmd Item
list_curr none = pure none
list_curr (some l) = do a ← get_list l; item_at a.curr

abbrev pub Comparator : Type 0
Comparator = ℕ → ℕ → ℤ

abbrev pub is_one : ℤ → Bool
is_one (pos n) = n == 1
is_one (negsuc n) = false

-- `while (item != NULL)`, on fuel.
unfoldable pub search_loop : Comparator → ℕ → ℕ → ℕ → Item → Cmd Item
search_loop comparator arg zero l item = λ p. out_of_fuel
search_loop comparator arg (suc fuel) l none = pure none
search_loop comparator arg (suc fuel) l (some x) =
    if is_one (comparator x arg)
    then pure (some x)
    else do item ← list_next (some l); search_loop comparator arg fuel l item

unfoldable pub list_search : ℕ → Option ℕ → Option Comparator → ℕ → Cmd Item
list_search fuel none comparator arg = pure none
list_search fuel (some l) none arg = pure none
list_search fuel (some l) (some comparator) arg = do
  a ← get_list l
  when (a.before && ltb 0 a.count) (change_list l (stand_on a.head))
  item ← list_curr (some l)
  search_loop comparator arg fuel l item
