-- ===== src/NodePool/Move/Walk.antt =====
-- ListFirst, ListLast, ListNext and ListPrev over a list that runs through known nodes.
use monitors_and_ipc.Prelude.{
  ℕ, zero, suc, ◌<◌, ◌≡◌, true, false, none, some, List, [], ◌∷◌, length, All, arith, refl, lt→ltb,
  update,
}
use monitors_and_ipc.NodePool.{Index, Item, Pool, done, max_nodes, Cmd, pure, ◌>>=◌, ◌>>◌}
use monitors_and_ipc.NodePool.Links.{Joined, Links, last}
use monitors_and_ipc.NodePool.Shape.{Shape, Ends, Ends-bind, items, bounded_last, done-eq}
use monitors_and_ipc.NodePool.Move.{list_first, list_last, list_next, list_prev, stand_on}

-- `p` with the cursor of `l` on the node `i`.
abbrev pub at_node : (l i : ℕ) → Pool → Pool
at_node l i p = record p {
  pool_lists = update p.pool_lists l (record (p.pool_lists l) { curr = some i });
}

-- `p` with the cursor of `l` past the last node, or before the first.
abbrev pub past_end : ℕ → Pool → Pool
past_end l p = record p {
  pool_lists =
      update p.pool_lists l (record (p.pool_lists l) { curr = none; after = true; before = false });
}

abbrev pub before_start : ℕ → Pool → Pool
before_start l p = record p {
  pool_lists =
      update p.pool_lists l (record (p.pool_lists l) { curr = none; before = true; after = false });
}

module _ (l i : ℕ) (p : Pool) (on : (p.pool_lists l).curr ≡ some i) (small : i < max_nodes) where
  pub list_next_to :
      (j : ℕ)
      → (p.pool_lists l).after ≡ false
      → (p.pool_nodes i).next ≡ some j
      → j < max_nodes
      → list_next (some l) p ≡ done (p.pool_nodes j).item (at_node l j p)
  unfolding list_next
  list_next_to j flag e below =
      simp (on, flag, e, lt→ltb i max_nodes small, lt→ltb j max_nodes below)

  pub list_prev_to :
      (j : ℕ)
      → (p.pool_lists l).before ≡ false
      → (p.pool_nodes i).prev ≡ some j
      → j < max_nodes
      → list_prev (some l) p ≡ done (p.pool_nodes j).item (at_node l j p)
  unfolding list_prev
  list_prev_to j flag e below =
      simp (on, flag, e, lt→ltb i max_nodes small, lt→ltb j max_nodes below)

  pub list_next_end :
      (p.pool_lists l).after ≡ false
      → (p.pool_nodes i).next ≡ none
      → list_next (some l) p ≡ done none (past_end l p)
  unfolding list_next
  list_next_end flag e =
      simp (on, flag, e, lt→ltb i max_nodes small)
        (done-eq none _ _ refl refl refl (λ m. ground arith) (λ k. refl))

  pub list_prev_start :
      (p.pool_lists l).before ≡ false
      → (p.pool_nodes i).prev ≡ none
      → list_prev (some l) p ≡ done none (before_start l p)
  unfolding list_prev
  list_prev_start flag e =
      simp (on, flag, e, lt→ltb i max_nodes small)
        (done-eq none _ _ refl refl refl (λ m. ground arith) (λ k. refl))

-- One step on and one step back: the same node, and the pools as they were.
-- ListNext and then ListPrev, from a node whose `next` has it as its `prev`, return the node's
-- item and leave the pools as they were.
pub next-prev :
    (l i j : ℕ) (p : Pool)
    → (p.pool_lists l).curr ≡ some i
    → (p.pool_lists l).after ≡ false
    → (p.pool_lists l).before ≡ false
    → Joined p.pool_nodes i j
    → i < max_nodes
    → j < max_nodes
    → (list_next (some l) >> list_prev (some l)) p ≡ done (p.pool_nodes i).item p
next-prev l i j p on not_after not_before pair small below =
    rw
      (
        list_next_to l i p on small j not_after pair.0 below,
        list_prev_to l j (at_node l j p) (ground arith) below i (ground arith) pair.1 small,
      )
      (done-eq (p.pool_nodes i).item _ _ refl refl refl (λ m. ground arith) (λ k. refl))

-- `n` calls of ListNext, with what they return.
pub visit : ℕ → ℕ → Cmd (List Item)
visit zero l = pure []
visit (suc n) l = do x ← list_next (some l); xs ← visit n l; pure (x ∷ xs)

pub visit_run :
    (l i : ℕ) (js : List ℕ) (p : Pool)
    → (p.pool_lists l).curr ≡ some i
    → (p.pool_lists l).after ≡ false
    → Links p.pool_nodes i js
    → All (λ k. k < max_nodes) (i ∷ js)
    → Ends
        (λ xs q.
          (xs ≡ items p js)
          × ((q.pool_lists l).curr ≡ some (last i js))
          × (q.pool_nodes ≡ p.pool_nodes))
        (visit (length js) l p)
unfolding visit
visit_run l i [] p on flag run small = (refl, on, refl)
visit_run l i (j ∷ js) p on flag run small =
    rw (list_next_to l i p on small.0 j flag run.0.0 small.1.0) (
      Ends-bind _ _ (visit (length js) l (at_node l j p)) (λ xs. pure ((p.pool_nodes j).item ∷ xs))
        (visit_run l j js (at_node l j p) (ground arith) (ground (arith, flag)) run.1 small.1)
        λ xs q (same, on', kept). (cc same, on', kept))

-- ListFirst and then `n` calls of ListNext.
pub walk : ℕ → ℕ → Cmd (List Item)
unfolding visit
walk n l = do x ← list_first (some l); xs ← visit n l; pure (x ∷ xs)

abbrev pub stood : ℕ → Index → Pool → Pool
stood l i p = record p { pool_lists = update p.pool_lists l (stand_on i (p.pool_lists l)) }

pub stood-Shape :
    (p : Pool) (l i : ℕ) (js : List ℕ) (c : Index) → Shape p l i js → Shape (stood l c p) l i js
stood-Shape p l i js c s = record {
  head = ground (arith, s.head);
  tail = ground (arith, s.tail);
  count = ground (arith, s.count);
  links = s.links;
  distinct = s.distinct;
  bounded = s.bounded;
  front = s.front;
  back = s.back;
}

pub list_first_to :
    (l i : ℕ) (js : List ℕ) (p : Pool)
    → Shape p l i js
    → list_first (some l) p ≡ done (p.pool_nodes i).item (stood l (some i) p)
unfolding list_first
list_first_to l i js p s = simp (s.count, s.head, lt→ltb i max_nodes s.bounded.0)

pub list_last_to :
    (l i : ℕ) (js : List ℕ) (p : Pool)
    → Shape p l i js
    → list_last (some l) p ≡ done (p.pool_nodes (last i js)).item (stood l (some (last i js)) p)
unfolding list_last
list_last_to l i js p s =
    simp (s.count, s.tail, lt→ltb (last i js) max_nodes (bounded_last i js s.bounded))

-- ListFirst followed by a ListNext for each further node returns the items of the list in order,
-- with no fault; the cursor is then at the tail, and no node has changed.
pub walk-items :
    (l i : ℕ) (js : List ℕ) (p : Pool)
    → Shape p l i js
    → Ends
        (λ xs q.
          (xs ≡ items p (i ∷ js))
          × ((q.pool_lists l).curr ≡ (p.pool_lists l).tail)
          × (q.pool_nodes ≡ p.pool_nodes))
        (walk (length js) l p)
unfolding walk
walk-items l i js p s = rw (list_first_to l i js p s) (
    Ends-bind _ _ (visit (length js) l (stood l (some i) p))
      (λ xs. pure ((p.pool_nodes i).item ∷ xs))
      (visit_run l i js (stood l (some i) p) (ground arith) (ground arith) s.links s.bounded)
      λ xs q (same, on, kept). (cc same, ground (arith, on, s.tail), kept))
