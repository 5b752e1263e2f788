-- ===== src/NodePool/Alloc.antt =====
-- nodeAllocator of a2-phase2/list_adders.c and ListCreate of list_removers.c.
pub mod Take
pub mod Create
use monitors_and_ipc.Prelude.{
  ℕ, ◌+◌, ◌-◌, true, false, Option, none, some, ◌==◌, ltb, if◌then◌else◌,
}
use monitors_and_ipc.NodePool.{
  Index, Node, LinkedList, Pool, Cmd, pure, ◌>>=◌, ◌>>◌, load, set_next, set_prev, set_link,
  get_pool, change_pool, get_list, change_list, max_nodes, max_lists,
}

-- The pools as Monitor.c defines them: free heads at 0, everything else zero.
pub zero_node : Node
zero_node = record { item = none; next = some 0; prev = some 0; link = some 0 }

pub zero_list : LinkedList
zero_list = record {
  head = some 0;
  tail = some 0;
  curr = some 0;
  count = 0;
  before = false;
  after = false;
  link = some 0;
}

unfoldable pub initial_pool : Pool
unfolding zero_node zero_list
initial_pool = record {
  initialized = false;
  free_list_head = some 0;
  free_node_head = some 0;
  pool_lists = λ l. zero_list;
  pool_nodes = λ i. zero_node;
}

abbrev pub take_free : Index → Cmd Index
take_free none = pure none
take_free (some i) = do
  n ← load (some i)
  change_pool λ q. record q { free_node_head = n.link }
  set_link (some i) none
  set_next (some i) none
  set_prev (some i) none
  pure (some i)

-- The free list's first node is taken off and its links are cleared; `none` when there is none.
unfoldable pub node_allocator : Cmd Index
node_allocator = do p ← get_pool; take_free p.free_node_head

-- What the loops of ListCreate write to the nodes and lists; the last link is -1.
pub fresh_node : ℕ → Node
fresh_node i = record {
  item = none;
  next = none;
  prev = none;
  link = if i == max_nodes - 1 then none else some (i + 1);
}

pub fresh_list : ℕ → LinkedList
fresh_list l = record {
  head = none;
  tail = none;
  curr = none;
  count = 0;
  before = true;
  after = false;
  link = if l == max_lists - 1 then none else some (l + 1);
}

-- The one-time initialisation, inside the arrays' bounds.
unfoldable pub init_pools : Pool → Pool
unfolding fresh_node fresh_list
init_pools p = record p {
  pool_nodes = λ i. if ltb i max_nodes then fresh_node i else p.pool_nodes i;
  pool_lists = λ l. if ltb l max_lists then fresh_list l else p.pool_lists l;
  initialized = true;
}

abbrev pub take_list : Index → Cmd (Option ℕ)
take_list none = pure none
take_list (some l) = do
  f ← get_list l
  change_pool λ q. record q { free_list_head = f.link }
  change_list l λ r. record r { link = none }
  pure (some l)

-- `LIST *ListCreate(void)`: the list's index in the pool, `none` for NULL.
unfoldable pub list_create : Cmd (Option ℕ)
unfolding init_pools
list_create = do
  change_pool λ p. if p.initialized then p else init_pools p
  p ← get_pool
  take_list p.free_list_head
