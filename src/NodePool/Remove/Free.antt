-- ===== src/NodePool/Remove/Free.antt =====
-- ListFree: which items it hands to itemFree, and what becomes of the nodes.
use monitors_and_ipc.Prelude.{
  ℕ, suc, ◌<◌, ◌-◌, ◌≡◌, inl, inr, false, none, some, List, [], ◌∷◌, map, length, All, ◌==◌, arith,
  refl, lt→ltb, update, if◌then◌else◌,
}
use monitors_and_ipc.NodePool.{
  Pool, done, max_nodes, Cmd, pure, ◌>>=◌, ◌>>◌, change_list, get_pool, change_pool,
}
use monitors_and_ipc.NodePool.Links.{Links, last}
use monitors_and_ipc.NodePool.Shape.{Shape, Ends, Ends-bind, Ends-mono, items, IsLoose, Runs}
use monitors_and_ipc.NodePool.Move.{list_curr, stand_on}
use monitors_and_ipc.NodePool.Move.Walk.{
  list_next_to, list_next_end, at_node, past_end, stood, list_first_to,
}
use monitors_and_ipc.NodePool.Remove.{free_round, free_loop, list_free, retire}

module _ {W : Type 0} (item_free : ℕ → W → W) where
  -- itemFree on each item in turn.
  unfoldable pub feed : List ℕ → W → W
  feed [] w = w
  feed (x ∷ xs) w = feed xs (item_free x w)

  -- `p` with one taken off the count of `l`.
  abbrev lessen : ℕ → Pool → Pool
  lessen l p = record p {
    pool_lists =
        update p.pool_lists l (record (p.pool_lists l) { count = (p.pool_lists l).count - 1 });
  }

  -- What the loop leaves alone.
  record Same (l : ℕ) (p q : Pool) : Type 0 where
    nodes : q.pool_nodes ≡ p.pool_nodes
    free_nodes : q.free_node_head ≡ p.free_node_head
    free_lists : q.free_list_head ≡ p.free_list_head
    ready : q.initialized ≡ p.initialized
    lists : (m : ℕ) → (m == l) ≡ false → q.pool_lists m ≡ p.pool_lists m

  module _ (l i x : ℕ) (w : W) (p : Pool) (on : (p.pool_lists l).curr ≡ some i)
      (flag : (p.pool_lists l).after ≡ false) (small : i < max_nodes)
      (held : (p.pool_nodes i).item ≡ some x) where
    round_on :
        (j : ℕ)
        → (p.pool_nodes i).next ≡ some j
        → j < max_nodes
        → free_round item_free l w p ≡ done (item_free x w) (lessen l (at_node l j p))
    unfolding free_round list_curr
    round_on j e below =
        simp (on, lt→ltb i max_nodes small, list_next_to l i p on small j flag e below, held)

    round_end :
        (p.pool_nodes i).next ≡ none
        → free_round item_free l w p ≡ done (item_free x w) (lessen l (past_end l p))
    unfolding free_round list_curr
    round_end e = simp (on, lt→ltb i max_nodes small, list_next_end l i p on small flag e, held)

  loop_feeds :
      (l i : ℕ) (js : List ℕ) (x : ℕ) (xs : List ℕ) (w : W) (p : Pool)
      → (p.pool_lists l).curr ≡ some i
      → (p.pool_lists l).after ≡ false
      → Links p.pool_nodes i js
      → All (λ k. k < max_nodes) (i ∷ js)
      → IsLoose (last i js) (p.pool_nodes (last i js)).next
      → items p (i ∷ js) ≡ map some (x ∷ xs)
      → Ends
          (λ v q. (v ≡ feed (x ∷ xs) w) × Same l p q)
          (free_loop item_free (suc (length js)) l w p)
  unfolding free_loop feed
  loop_feeds l i [] x (y ∷ ys) w p on flag run small back held = cc
  loop_feeds l i [] x [] w p on flag run small (inl back) held =
      rw (round_end l i x w p on flag small.0 (ground arith) back) (
        refl,
        record {
          nodes = refl;
          free_nodes = refl;
          free_lists = refl;
          ready = refl;
          lists = λ m h. ground arith;
        },
      )
  loop_feeds l i [] x [] w p on flag run small (inr back) held =
      rw (round_on l i x w p on flag small.0 (ground arith) i back small.0) (
        refl,
        record {
          nodes = refl;
          free_nodes = refl;
          free_lists = refl;
          ready = refl;
          lists = λ m h. ground arith;
        },
      )
  loop_feeds l i (j ∷ js) x [] w p on flag run small back held = cc
  loop_feeds l i (j ∷ js) x (y ∷ ys) w p on flag run small back held =
      rw (round_on l i x w p on flag small.0 (ground arith) j run.0.0 small.1.0) (
        Ends-mono _ (λ v q. (v ≡ feed (x ∷ y ∷ ys) w) × Same l p q) _
          (loop_feeds l j js y ys (item_free x w) (lessen l (at_node l j p)) (ground arith)
            (ground (arith, flag)) run.1 small.1 back (ground arith))
          λ v q h. (
            h.0,
            record {
              nodes = h.1.nodes;
              free_nodes = h.1.free_nodes;
              free_lists = h.1.free_lists;
              ready = h.1.ready;
              lists = λ m off. ground (arith, h.1.lists m off);
            },
          ))

  -- ListFree of a list with nodes, all with items that are not NULL, comes to an end with no
  -- fault: it calls itemFree once on each item in order, leaves the list empty and first on the
  -- free lists, and gives no node back: the nodes and the head of the free nodes are as before.
  pub free_feeds :
      (l i : ℕ) (js : List ℕ) (x : ℕ) (xs : List ℕ) (w : W) (p : Pool)
      → Shape p l i js
      → items p (i ∷ js) ≡ map some (x ∷ xs)
      → Ends
          (λ v q.
            (v ≡ feed (x ∷ xs) w)
            × Runs q l []
            × (q.free_list_head ≡ some l)
            × ((q.pool_lists l).link ≡ p.free_list_head)
            × (q.free_node_head ≡ p.free_node_head)
            × (q.pool_nodes ≡ p.pool_nodes))
          (list_free (some l) (some item_free) w p)
  unfolding list_free
  free_feeds l i js x xs w p s held = rw (list_first_to l i js p s) (
      let e : (if l == l then stand_on (some i) (p.pool_lists l) else p.pool_lists l).count
          ≡ suc (length js) =
        ground (arith, s.count) in
      rw e (
        Ends-bind _ _ (free_loop item_free (suc (length js)) l w (stood l (some i) p))
          (λ v. give_back v)
          (loop_feeds l i js x xs w (stood l (some i) p) (ground arith) (ground arith) s.links
            s.bounded s.back held)
          λ v q h.
            (h.0, ground arith, refl, ground (arith, h.1.free_lists), h.1.free_nodes, h.1.nodes)))
    where
      give_back : W → Cmd W
      give_back v = do
        q ← get_pool
        change_list l (retire q.free_list_head)
        change_pool λ r. record r { free_list_head = some l }
        pure v
