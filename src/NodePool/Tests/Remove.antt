-- ===== src/NodePool/Tests/Remove.antt =====
-- The removals on small pools.
use monitors_and_ipc.Prelude.{◌+◌, ◌≡◌, refl, inl, inr, none, some, [], ◌∷◌}
use monitors_and_ipc.NodePool.{fault}
use monitors_and_ipc.NodePool.Shape.{Ends, Runs}
use monitors_and_ipc.NodePool.Move.{list_first}
use monitors_and_ipc.NodePool.Remove.{list_remove, list_concat, list_free}
use monitors_and_ipc.NodePool.Remove.Only.{remove_looped}
use monitors_and_ipc.NodePool.Remove.Free.{free_feeds, feed}
use monitors_and_ipc.NodePool.Tests.Samples.{sample, sample-Shape}

remove_looped_example :
    Ends
      (λ x q.
        (x ≡ some 10)
        × ((q.pool_lists 0).count ≡ 2)
        × ((q.pool_lists 0).head ≡ some 5)
        × (q.free_node_head ≡ some 5)
        × Ends (λ y r. y ≡ none) (list_first (some 0) q))
      (list_remove (some 0) (sample (some 5) (some 5) none))
remove_looped_example =
    remove_looped 0 (sample (some 5) (some 5) none) 5 6 (7 ∷ [])
      (sample-Shape (some 5) (some 5) none (inr refl) (inl refl)) refl refl refl refl

free_feeds_example :
    Ends
      (λ v q.
        (v ≡ 60)
        × Runs q 0 []
        × (q.free_list_head ≡ some 0)
        × ((q.pool_lists 0).link ≡ some 10)
        × (q.free_node_head ≡ some 8)
        × (q.pool_nodes ≡ (sample none none none).pool_nodes))
      (list_free (some 0) (some (λ x w. x + w)) 0 (sample none none none))
unfolding feed
free_feeds_example =
    free_feeds (λ x w. x + w) 0 5 (6 ∷ 7 ∷ []) 10 (20 ∷ 30 ∷ []) 0 (sample none none none)
      (sample-Shape none none none (inl refl) (inl refl)) refl

-- Nothing in the first list: the node -1 is written.
concat_nowhere_result : list_concat (some 2) (some 1) (sample none none none) ≡ fault
unfolding list_concat
concat_nowhere_result = refl
