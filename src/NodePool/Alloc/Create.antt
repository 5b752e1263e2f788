-- ===== src/NodePool/Alloc/Create.antt =====
-- ListCreate: the pools after the first call, and the lists that it hands out.
use monitors_and_ipc.Prelude.{
  ℕ, zero, suc, ◌<◌, ◌+◌, ◌≤◌, ◌≡◌, refl, true, false, none, some, List, [], ◌∷◌, arith, lt→ltb,
  ◌==◌, update,
}
use monitors_and_ipc.NodePool.{Index, Pool, LinkedList, done, max_nodes, max_lists}
use monitors_and_ipc.NodePool.Links.{has, ne_of_has, Nodes}
use monitors_and_ipc.NodePool.Shape.{Ends, IsFree, FreeFrom, Runs}
use monitors_and_ipc.NodePool.Alloc.{init_pools, list_create, fresh_node, fresh_list}

-- `k`, `k + 1`, … : `n` numbers.
unfoldable pub count_up : ℕ → ℕ → List ℕ
count_up k zero = []
count_up k (suc n) = k ∷ count_up (suc k) n

-- From `f` on the free lists are `ls`, each one empty.
abbrev pub FreeListsFrom : (ℕ → LinkedList) → Index → List ℕ → Type 0
FreeListsFrom h f [] = f ≡ none
FreeListsFrom h f (l ∷ ls) =
    (f ≡ some l) × ((h l).count ≡ 0) × (has l ls ≡ false) × FreeListsFrom h (h l).link ls

abbrev pub IsFreeLists : Pool → List ℕ → Type 0
IsFreeLists p ls = FreeListsFrom p.pool_lists p.free_list_head ls

has-count_up : (j k n : ℕ) → j < k → has j (count_up k n) ≡ false
unfolding count_up
has-count_up j k zero h = refl
has-count_up j k (suc n) h = ground (arith, has-count_up j (suc k) n)

nodes_free :
    (h : Nodes) (k n : ℕ)
    → ((i : ℕ) → i < max_nodes → h i ≡ fresh_node i)
    → k + suc n ≡ max_nodes
    → FreeFrom h (some k) (count_up k (suc n))
unfolding count_up fresh_node
nodes_free h k zero new e = (refl, omega arith, refl, ground (arith, new k))
nodes_free h k (suc n) new e = (
  refl,
  omega arith,
  has-count_up k (suc k) (suc n) (omega arith),
  rw (let next : (h k).link ≡ some (suc k) = ground (arith, new k) in next)
      (nodes_free h (suc k) n new (omega arith)),
)

lists_free :
    (h : ℕ → LinkedList) (k n : ℕ)
    → ((i : ℕ) → k ≤ i → i < max_lists → h i ≡ fresh_list i)
    → k + suc n ≡ max_lists
    → FreeListsFrom h (some k) (count_up k (suc n))
unfolding count_up fresh_list
lists_free h k zero new e = (refl, ground (arith, new k), refl, ground (arith, new k))
lists_free h k (suc n) new e = (
  refl,
  ground (arith, new k),
  has-count_up k (suc k) (suc n) (omega arith),
  rw (let next : (h k).link ≡ some (suc k) = ground (arith, new k) in next)
      (lists_free h (suc k) n (λ i le lt. new i (omega arith) lt) (omega arith)),
)

FreeLists-frame :
    (h g : ℕ → LinkedList) (f : Index) (ls : List ℕ)
    → ((m : ℕ) → has m ls ≡ true → g m ≡ h m)
    → FreeListsFrom h f ls
    → FreeListsFrom g f ls
FreeLists-frame h g f [] same a = a
FreeLists-frame h g f (l ∷ ls) same a =
    let e : g l ≡ h l = same l (ground arith) in
    (
      a.0,
      rw e (a.1),
      a.2,
      rw e (FreeLists-frame h g (h l).link ls (λ m k. same m (ground arith)) (a.3)),
    )

-- `p` with the list `l` off the free lists.
abbrev pub handed_out : ℕ → Pool → Pool
handed_out l p = record p {
  free_list_head = (p.pool_lists l).link;
  pool_lists = update p.pool_lists l (record (p.pool_lists l) { link = none });
}

module _ (p : Pool) (ready : p.initialized ≡ true) where
  -- Once the pools are set up, with a list on the free lists, ListCreate returns the first of them
  -- as an empty list; the others stay free, and no other list and no node changes.
  pub create_again :
      (l : ℕ) (ls fs : List ℕ)
      → IsFreeLists p (l ∷ ls)
      → IsFree p fs
      → Ends
          (λ r q.
            (r ≡ some l)
            × Runs q l []
            × IsFreeLists q ls
            × IsFree q fs
            × ((m : ℕ) → (m == l) ≡ false → q.pool_lists m ≡ p.pool_lists m)
            × (q.pool_nodes ≡ p.pool_nodes)
            × (q.initialized ≡ true))
          (list_create p)
  unfolding list_create
  create_again l ls fs lists nodes =
      simp (ready, lists.0)
        (refl, ground (arith, lists.1), kept, nodes, λ m off. ground arith, refl, refl)
    where
      kept : IsFreeLists (handed_out l p) ls
      kept =
          FreeLists-frame p.pool_lists (handed_out l p).pool_lists (p.pool_lists l).link ls
            (λ m h. ground (arith, ne_of_has m l ls h lists.2)) (lists.3)

  pub create_none : IsFreeLists p [] → list_create p ≡ done none p
  unfolding list_create
  create_none e = simp (ready, e)

-- The first ListCreate returns the list 0, empty, and sets the pools up: the lists 1 to 19 are
-- then free, each empty, and so are the nodes 0 to 999, in this order.
pub create_first :
    (p : Pool)
    → p.initialized ≡ false
    → p.free_list_head ≡ some 0
    → p.free_node_head ≡ some 0
    → Ends
        (λ r q.
          (r ≡ some 0)
          × (q.initialized ≡ true)
          × Runs q 0 []
          × IsFreeLists q (count_up 1 19)
          × IsFree q (count_up 0 1000))
        (list_create p)
unfolding list_create init_pools fresh_list
create_first p cold e f =
    simp (cold, e)
      (
        refl,
        refl,
        refl,
        lists_free (handed_out 0 (init_pools p)).pool_lists 1 18
            (λ i below small. ground (arith, lt→ltb i max_lists small)) refl,
        rw f (
            nodes_free (init_pools p).pool_nodes 0 999
              (λ i small. ground (arith, lt→ltb i max_nodes small)) refl),
      )
