-- ===== src/NodePool/Tests/Move.antt =====
-- The cursor on small pools.
use monitors_and_ipc.Prelude.{◌≡◌, refl, none, some, [], ◌∷◌, ◌==◌, if◌then◌else◌, arith, pos}
use monitors_and_ipc.NodePool.{out_of_fuel}
use monitors_and_ipc.NodePool.Shape.{Ends}
use monitors_and_ipc.NodePool.Move.{Comparator, list_search}
use monitors_and_ipc.NodePool.Move.Search.{search_finds, search_hangs, find_first}
use monitors_and_ipc.NodePool.Tests.Samples.{sample}

abbrev equal : Comparator
equal x y = if x == y then pos 1 else pos 0

search_finds_example :
    Ends
      (λ r q. (r ≡ some 30) × (q.pool_nodes ≡ (sample none (some 6) none).pool_nodes))
      (list_search 3 (some 0) (some equal) 30 (sample none (some 6) none))
unfolding find_first
search_finds_example =
    search_finds equal 30 0 (sample none (some 6) none) 6 (7 ∷ []) 20 (30 ∷ []) ((refl, refl), tt)
      (omega arith, (omega arith, tt)) refl refl refl refl 3 refl (omega arith)

search_hangs_example :
    list_search 1000 (some 0) (some equal) 11 (sample none (some 5) (some 7)) ≡ out_of_fuel
unfolding find_first
search_hangs_example =
    search_hangs equal 11 0 (sample none (some 5) (some 7)) 5 (6 ∷ 7 ∷ []) 10 (20 ∷ 30 ∷ [])
      ((refl, refl), ((refl, refl), tt)) (omega arith, (omega arith, (omega arith, tt))) refl refl
      refl refl 1000 refl refl
