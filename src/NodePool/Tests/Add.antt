-- ===== src/NodePool/Tests/Add.antt =====
-- The insertions and ListCreate on small pools.
use monitors_and_ipc.Prelude.{◌≡◌, refl, inl, none, some, [], ◌∷◌, pos, minus_one}
use monitors_and_ipc.NodePool.{done, fault}
use monitors_and_ipc.NodePool.Shape.{Ends}
use monitors_and_ipc.NodePool.Alloc.{node_allocator}
use monitors_and_ipc.NodePool.Add.{prepend_node, list_append, list_prepend, list_add}
use monitors_and_ipc.NodePool.Add.AtTail.{add_behind}
use monitors_and_ipc.NodePool.Move.{list_last}
use monitors_and_ipc.NodePool.Tests.Samples.{sample, full, sample-Shape, sample_free}

append_full_result : list_append (some 0) (some 70) full ≡ done minus_one full
unfolding list_append node_allocator
append_full_result = refl

-- The cursor off the list: an item of node -1 is read.
prepend_off_result : list_prepend (some 0) (some 70) (sample none none none) ≡ fault
unfolding list_prepend prepend_node node_allocator
prepend_off_result = refl

add_behind_example :
    Ends
      (λ r q.
        (r ≡ pos 0)
        × ((q.pool_lists 0).count ≡ 4)
        × ((q.pool_nodes 7).next ≡ some 8)
        × ((q.pool_nodes 8).item ≡ some 70)
        × ((q.pool_lists 0).tail ≡ some 7)
        × Ends (λ y q'. y ≡ some 30) (list_last (some 0) q))
      (list_add (some 0) (some 70) (sample none (some 7) none))
add_behind_example =
    add_behind 0 70 8 (sample none (some 7) none) 5 (6 ∷ 7 ∷ []) (9 ∷ [])
      (sample-Shape none (some 7) none (inl refl) (inl refl)) (sample_free none (some 7) none) refl
      refl refl refl refl
