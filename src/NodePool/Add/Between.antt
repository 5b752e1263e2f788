-- ===== src/NodePool/Add/Between.antt =====
-- ListAdd and ListInsert inside a list.
use monitors_and_ipc.Prelude.{
  ℕ, ◌<◌, ◌≡◌, false, some, List, ◌∷◌, ◌++◌, ◌==◌, arith, refl, pos, lt→ltb, ==_refl,
}
use monitors_and_ipc.NodePool.{Pool, done, max_nodes}
use monitors_and_ipc.NodePool.Links.{has, Joined, last}
use monitors_and_ipc.NodePool.Shape.{Shape, Ends, Ends-eq, items, IsFree, Changed, done-eq}
use monitors_and_ipc.NodePool.Alloc.Take.{node_allocator-some}
use monitors_and_ipc.NodePool.Add.{add_node, list_add, insert_node, list_insert}
use monitors_and_ipc.NodePool.Add.Splice.{between, longer, inserted, facts, between-Changed}

-- The list runs through `i` and `js`, and then through `d` and `ks`; `f` is free.
module _ (l x f : ℕ) (p : Pool) (i : ℕ) (js : List ℕ) (d : ℕ) (ks fs : List ℕ)
    (s : Shape p l i (js ++ d ∷ ks)) (free : IsFree p (f ∷ fs))
    (new : has f (i ∷ js ++ d ∷ ks) ≡ false) where
  abbrev c : ℕ
  c = last i js

  ready :
      (c < max_nodes)
      × (d < max_nodes)
      × ((f == c) ≡ false)
      × ((f == d) ≡ false)
      × ((c == d) ≡ false)
      × ((i == d) ≡ false)
      × Joined p.pool_nodes c d
  ready = facts l x f p i js d ks fs s free new

  list_add_eq :
      (p.pool_lists l).curr ≡ some c
      → (p.pool_lists l).after ≡ false
      → (p.pool_lists l).before ≡ false
      → list_add (some l) (some x) p
        ≡ done (pos 0) (between l x f c d (longer l x f p i js d ks fs s free new) p)
  unfolding list_add add_node
  list_add_eq on not_after not_before =
      simp
        (
          node_allocator-some p f free.0 free.1,
          s.count,
          on,
          not_after,
          not_before,
          ==_refl f,
          lt→ltb f max_nodes free.1,
          lt→ltb c max_nodes ready.0,
          lt→ltb d max_nodes ready.1,
          ready.2,
          ready.3,
          ready.6.0,
        )
        (done-eq (pos 0) _ _ refl refl refl (λ m. ground arith)
          (λ k. ground (arith, ready.2, ready.3, ready.4)))

  list_insert_eq :
      (p.pool_lists l).curr ≡ some d
      → (p.pool_lists l).after ≡ false
      → (p.pool_lists l).before ≡ false
      → list_insert (some l) (some x) p
        ≡ done (pos 0) (between l x f c d (inserted l x f p i js d ks fs s free new) p)
  unfolding list_insert insert_node
  list_insert_eq on not_after not_before =
      simp
        (
          node_allocator-some p f free.0 free.1,
          s.count,
          s.head,
          on,
          not_after,
          not_before,
          ==_refl f,
          ==_refl l,
          ready.5,
          lt→ltb f max_nodes free.1,
          lt→ltb c max_nodes ready.0,
          lt→ltb d max_nodes ready.1,
          ready.2,
          ready.3,
          ready.4,
          (let h : (d == f) ≡ false = ground (arith, ready.3) in h),
          (let h : (c == f) ≡ false = ground (arith, ready.2) in h),
          ready.6.1,
        )
        (done-eq (pos 0) _ _ refl refl refl (λ m. ground arith)
          (λ k. ground (arith, ready.2, ready.3, ready.4)))

module _ (l x f : ℕ) (p : Pool) (i : ℕ) (js : List ℕ) (d : ℕ) (ks fs : List ℕ)
    (s : Shape p l i (js ++ d ∷ ks)) (free : IsFree p (f ∷ fs))
    (new : has f (i ∷ js ++ d ∷ ks) ≡ false) (not_after : (p.pool_lists l).after ≡ false)
    (not_before : (p.pool_lists l).before ≡ false) where
  abbrev Between : Pool → Type 0
  Between =
      Changed l (i ∷ js ++ f ∷ d ∷ ks) (items p (i ∷ js) ++ some x ∷ items p (d ∷ ks)) fs
        (f ∷ i ∷ js ++ d ∷ ks) p

  -- ListAdd with the cursor on a node that has a next one, and a free node, returns 0 and puts the
  -- item between the two, with the nodes and items around it in order; the cursor stays, the first
  -- free node is taken, and no other list or node changes.
  pub add-Between :
      (p.pool_lists l).curr ≡ some (last i js)
      → Ends
          (λ r q. (r ≡ pos 0) × Between q × ((q.pool_lists l).curr ≡ some (last i js)))
          (list_add (some l) (some x) p)
  add-Between on = Ends-eq _ (list_add_eq l x f p i js d ks fs s free new on not_after not_before) (
    refl,
    between-Changed l x f p i js d ks fs s free new (longer l x f p i js d ks fs s free new) s.head
        refl refl,
    ground (arith, on),
  )

  -- ListInsert with the cursor on a node that is not the first, and a free node, returns 0 and
  -- puts the item just before it, with the nodes and items around it in order; the cursor is on
  -- the new node, the first free node is taken, and no other list or node changes.
  pub insert-Between :
      (p.pool_lists l).curr ≡ some d
      → Ends
          (λ r q. (r ≡ pos 0) × Between q × ((q.pool_lists l).curr ≡ some f))
          (list_insert (some l) (some x) p)
  insert-Between on =
      Ends-eq _ (list_insert_eq l x f p i js d ks fs s free new on not_after not_before) (
        refl,
        between-Changed l x f p i js d ks fs s free new (inserted l x f p i js d ks fs s free new)
            s.head refl refl,
        ground arith,
      )
