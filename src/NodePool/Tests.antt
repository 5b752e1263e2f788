-- ===== src/NodePool/Tests.antt =====
-- Runs of the list library on small inputs.
pub mod Samples
mod Add
mod Remove
mod Move
mod Queues
use monitors_and_ipc.Prelude.{◌≡◌, refl, Option, none, some, ℤ, pos}
use monitors_and_ipc.NodePool.{Item, Cmd, Run, done, pure, ◌>>=◌, ◌>>◌}
use monitors_and_ipc.NodePool.Alloc.{initial_pool, list_create, node_allocator}
use monitors_and_ipc.NodePool.Add.{list_append, append_node}
use monitors_and_ipc.NodePool.Move.{list_first, list_next, list_count}
use monitors_and_ipc.NodePool.Remove.{list_remove, unlink_node}

abbrev outcome : {A : Type 0} → Run A → Option A
outcome (done a p) = some a
outcome _ = none

-- Two items come back in order by the cursor.
walk : Cmd (Item × Item × Item)
walk = do
  l ← list_create
  list_append l (some 7)
  list_append l (some 8)
  a ← list_first l
  b ← list_next l
  c ← list_next l
  pure (a, b, c)

walk_result : outcome (walk initial_pool) ≡ some (some 7, some 8, none)
unfolding walk initial_pool list_create list_append append_node node_allocator list_first list_next
walk_result = refl

-- Taking the first of two off twice finds nothing the second time.
drain : Cmd (Item × Item × Item × ℤ)
drain = do
  l ← list_create
  list_append l (some 7)
  list_append l (some 8)
  list_first l
  a ← list_remove l
  b ← list_first l
  c ← list_remove l
  n ← list_count l
  pure (a, b, c, n)

drain_result : outcome (drain initial_pool) ≡ some (some 7, none, none, pos 0)
unfolding drain initial_pool list_create list_append append_node node_allocator list_first
    list_remove unlink_node list_count
drain_result = refl
