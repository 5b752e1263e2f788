-- ===== src/NodePool/Queues/Take.antt =====
-- ListFirst and ListRemove on one of several queues, where it has one entry.
use monitors_and_ipc.Prelude.{
  ℕ, ◌<◌, ◌≡◌, true, false, some, List, [], ◌∷◌, arith, refl, ◌==◌, ◌∙◌, update,
}
use monitors_and_ipc.NodePool.{Pool, done}
use monitors_and_ipc.NodePool.Links.{has, ne_of_has}
use monitors_and_ipc.NodePool.Shape.{Shape, items, Ends, Ends-mono}
use monitors_and_ipc.NodePool.Move.{list_first}
use monitors_and_ipc.NodePool.Move.Walk.{stood, stood-Shape, list_first_to}
use monitors_and_ipc.NodePool.Remove.{list_remove}
use monitors_and_ipc.NodePool.Remove.Only.{remove_only}
use monitors_and_ipc.NodePool.Queues.Hold.{Holds, Holds-update}

one_node :
    (p : Pool) (is : List ℕ) (x : ℕ)
    → items p is ≡ some x ∷ []
    → (i : ℕ) × (is ≡ i ∷ []) × ((p.pool_nodes i).item ≡ some x)
one_node p [] x e = cc
one_node p (i ∷ []) x e = (i, refl, ground arith)
one_node p (i ∷ j ∷ js) x e = absurd (cc)

module _ (n : ℕ) (idx : ℕ → ℕ) (p : Pool) (ns : ℕ → List ℕ) (fs : List ℕ) (xs : ℕ → List ℕ)
    (h : Holds n idx p ns fs xs) (a : ℕ) (below : a < n) (x : ℕ) where
  module _ (i : ℕ) (only : ns a ≡ i ∷ []) (held : (p.pool_nodes i).item ≡ some x) where
    shape : Shape p (idx a) i []
    shape = rw only at (h.runs a below)

    mine : has i (ns a) ≡ true
    mine = ground (arith, only)

    removed :
        Ends
          (λ y q. (y ≡ some x) × Holds n idx q (update ns a []) (i ∷ fs) (update xs a []))
          (list_remove (some (idx a)) (stood (idx a) (some i) p))
    removed =
        Ends-mono _ (λ y q. (y ≡ some x) × Holds n idx q (update ns a []) (i ∷ fs) (update xs a []))
          _
          (remove_only (idx a) (stood (idx a) (some i) p) i fs
            (stood-Shape p (idx a) i [] (some i) shape) h.free (h.spare a below i mine)
            (ground arith) (ground arith) (ground arith))
          λ y q e. (
            e.0 ∙ held,
            Holds-update n idx p q ns fs xs h a below [] [] (i ∷ fs) (i ∷ [])
                (record {
                  runs = e.2.runs;
                  items_are = e.2.items_are;
                  free = e.2.free;
                  within = record {
                    nodes = e.2.within.nodes;
                    lists = λ m off. ground (arith, e.2.within.lists m off);
                    free_lists = e.2.within.free_lists;
                    ready = e.2.within.ready;
                  };
                })
                (λ b lt off k m.
                  let ne : (k == i) ≡ false =
                    ne_of_has k i (ns b) m (h.apart a b below lt off i mine) in
                  (ground (arith, ne), refl, ground (arith, ne, h.spare b lt k m)))
                (λ k m. cc),
          )

  -- On one of several disjoint queues, when it holds a single item, ListFirst and then ListRemove
  -- return that item and leave the queue empty; every other queue is as before, and the node is
  -- free.
  pub take_lem :
      xs a ≡ x ∷ []
      → (i : ℕ) × (list_first (some (idx a)) p ≡ done (some x) (stood (idx a) (some i) p))
        × Ends
            (λ y q. (y ≡ some x) × Holds n idx q (update ns a []) (i ∷ fs) (update xs a []))
            (list_remove (some (idx a)) (stood (idx a) (some i) p))
  take_lem one =
      let (i, only, held) = one_node p (ns a) x (rw (h.held a below, one) refl) in
      (i, list_first_to (idx a) i [] p (shape i only held) ∙ cc held, removed i only held)
