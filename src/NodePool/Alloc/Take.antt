-- ===== src/NodePool/Alloc/Take.antt =====
-- nodeAllocator on a free list that is known.
use monitors_and_ipc.Prelude.{ℕ, ◌<◌, ◌≡◌, refl, none, some, arith, lt→ltb, ◌==◌, if◌then◌else◌}
use monitors_and_ipc.NodePool.{Pool, done, max_nodes}
use monitors_and_ipc.NodePool.Shape.{done-eq}
use monitors_and_ipc.NodePool.Alloc.{node_allocator}

-- `p` without the free node `f`.
abbrev pub taken : ℕ → Pool → Pool
taken f p = record p {
  free_node_head = (p.pool_nodes f).link;
  pool_nodes = λ k.
      if f == k
      then record (p.pool_nodes k) { next = none; prev = none; link = none }
      else p.pool_nodes k;
}

pub node_allocator-some :
    (p : Pool) (f : ℕ)
    → p.free_node_head ≡ some f
    → f < max_nodes
    → node_allocator p ≡ done (some f) (taken f p)
unfolding node_allocator
node_allocator-some p f e small =
    simp (e, lt→ltb f max_nodes small)
      (done-eq (some f) _ _ refl refl refl (λ m. refl) λ k. ground arith)

pub node_allocator-none : (p : Pool) → p.free_node_head ≡ none → node_allocator p ≡ done none p
unfolding node_allocator
node_allocator-none p e = rw e
