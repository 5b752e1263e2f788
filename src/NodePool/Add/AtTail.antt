-- ===== src/NodePool/Add/AtTail.antt =====
-- ListAdd with the cursor on the last node.
use monitors_and_ipc.Prelude.{
  ℕ, suc, ◌<◌, ◌≡◌, false, none, some, List, ◌∷◌, length, ◌==◌, arith, refl, pos, lt→ltb, ==_refl,
  update, if◌then◌else◌,
}
use monitors_and_ipc.NodePool.{Pool, done, max_nodes}
use monitors_and_ipc.NodePool.Links.{has, last, ne_of_other, has-last}
use monitors_and_ipc.NodePool.Shape.{Shape, Ends, Ends-eq, IsFree, bounded_last, done-eq}
use monitors_and_ipc.NodePool.Alloc.Take.{node_allocator-some}
use monitors_and_ipc.NodePool.Add.{add_node, list_add}
use monitors_and_ipc.NodePool.Move.{list_last}

-- `p` with the free node `f` behind the node `c`, holding `x`, and one more on the count of `l`.
abbrev pub hung : (l x f c n : ℕ) → Pool → Pool
hung l x f c n p = record p {
  free_node_head = (p.pool_nodes f).link;
  pool_nodes = λ k.
      if f == k
      then record { item = some x; next = none; prev = some c; link = none }
      else if c == k
      then record (p.pool_nodes k) { next = some f }
      else p.pool_nodes k;
  pool_lists = update p.pool_lists l (record (p.pool_lists l) { count = n });
}

module _ (l x f : ℕ) (p : Pool) (i : ℕ) (js fs : List ℕ) (s : Shape p l i js)
    (free : IsFree p (f ∷ fs)) (new : has f (i ∷ js) ≡ false)
    (on : (p.pool_lists l).curr ≡ some (last i js)) (not_after : (p.pool_lists l).after ≡ false)
    (not_before : (p.pool_lists l).before ≡ false)
    (marked : (p.pool_nodes (last i js)).next ≡ none) where
  abbrev c : ℕ
  c = last i js

  off_fc : (f == c) ≡ false
  off_fc = ne_of_other f c (i ∷ js) new (has-last i js)

  small_c : c < max_nodes
  small_c = bounded_last i js s.bounded

  abbrev result : Pool
  result = hung l x f c (suc (suc (length js))) p

  add_eq : list_add (some l) (some x) p ≡ done (pos 0) result
  unfolding list_add add_node
  add_eq =
      simp
        (
          node_allocator-some p f free.0 free.1,
          s.count,
          on,
          not_after,
          not_before,
          ==_refl f,
          lt→ltb f max_nodes free.1,
          lt→ltb c max_nodes small_c,
          off_fc,
          marked,
        )
        (done-eq (pos 0) _ _ refl refl refl (λ m. ground arith) (λ k. ground (arith, off_fc)))

  last_eq : Ends (λ y q. y ≡ (p.pool_nodes c).item) (list_last (some l) result)
  unfolding list_last
  last_eq = simp (==_refl l, s.tail, lt→ltb c max_nodes small_c, off_fc, ==_refl c) refl

  -- ListAdd with the cursor on the last node, which has no `next`, and a free node returns 0 and
  -- links the new node behind it, with one more on the count, but `tail` still names the old last
  -- node, and ListLast then returns the old last item.
  pub add_behind :
      Ends
        (λ r q.
          (r ≡ pos 0)
          × ((q.pool_lists l).count ≡ suc (suc (length js)))
          × ((q.pool_nodes (last i js)).next ≡ some f)
          × ((q.pool_nodes f).item ≡ some x)
          × ((q.pool_lists l).tail ≡ some (last i js))
          × Ends (λ y q'. y ≡ (p.pool_nodes (last i js)).item) (list_last (some l) q))
        (list_add (some l) (some x) p)
  add_behind =
      Ends-eq _ add_eq
        (refl, ground arith, ground (arith, off_fc), ground arith, ground (arith, s.tail), last_eq)
