-- ===== src/NodePool/Remove/AtFirst.antt =====
-- ListRemove at the first node of a list.
use monitors_and_ipc.Prelude.{
  ℕ, suc, ◌-◌, ◌≡◌, inl, true, false, none, some, List, ◌∷◌, length, ◌==◌, arith, refl, lt→ltb,
  ==_refl, update, if◌then◌else◌,
}
use monitors_and_ipc.NodePool.{Pool, done, max_nodes}
use monitors_and_ipc.NodePool.Links.{has, Links-frame, last, ne_of_has, has-last}
use monitors_and_ipc.NodePool.Shape.{
  Shape, Ends, Ends-eq, items, IsFree, FreeFrom-frame, Changed, done-eq, items-frame,
}
use monitors_and_ipc.NodePool.Remove.{unlink_node, list_remove}

-- `p` with the first node `i` freed, and `m` first.
abbrev pub beheaded : (l i m n : ℕ) → Pool → Pool
beheaded l i m n p = record p {
  free_node_head = some i;
  pool_nodes = λ k.
      if i == k
      then record { item = none; next = none; prev = none; link = p.free_node_head }
      else if m == k
      then record (p.pool_nodes k) { prev = none }
      else p.pool_nodes k;
  pool_lists = update p.pool_lists l (record (p.pool_lists l) {
    head = some m;
    curr = some m;
    count = n;
    before = false;
    after = false;
  });
}

module _ (l : ℕ) (p : Pool) (i m : ℕ) (ks fs : List ℕ) (s : Shape p l i (m ∷ ks))
    (free : IsFree p fs) (old : (k : ℕ) → has k (i ∷ m ∷ ks) ≡ true → has k fs ≡ false)
    (marked : (p.pool_nodes i).prev ≡ none) (on : (p.pool_lists l).curr ≡ some i)
    (not_after : (p.pool_lists l).after ≡ false)
    (not_before : (p.pool_lists l).before ≡ false) where
  abbrev first_result : Pool
  first_result = beheaded l i m (suc (length ks)) p

  first_eq : list_remove (some l) p ≡ done (p.pool_nodes i).item first_result
  unfolding list_remove unlink_node
  first_eq =
      simp
        (
          s.count,
          on,
          not_after,
          not_before,
          ==_refl i,
          ==_refl l,
          lt→ltb i max_nodes s.bounded.0,
          lt→ltb m max_nodes s.bounded.1.0,
          marked,
          s.links.0.0,
          (let h : suc (suc (length ks)) - 1 ≡ suc (length ks) = omega arith in h),
        )
        (done-eq (p.pool_nodes i).item _ _ refl refl refl (λ n. ground arith)
          (λ k. ground (arith, s.distinct.0)))

  first_apart : (k : ℕ) → has k (m ∷ ks) ≡ true → (i == k) ≡ false
  first_apart k h = ground (arith, ne_of_has k i (m ∷ ks) h s.distinct.0)

  -- ListRemove with the cursor on the first of at least two nodes, whose `prev` is -1, returns its
  -- item; the list keeps the other nodes and items in order, the cursor moves to the next node,
  -- the node comes first on the free list, and no other list or node changes.
  pub remove_first :
      Ends
        (λ x q.
          (x ≡ (p.pool_nodes i).item)
          × ((q.pool_lists l).curr ≡ some m)
          × Changed l (m ∷ ks) (items p (m ∷ ks)) (i ∷ fs) (i ∷ m ∷ ks) p q)
        (list_remove (some l) p)
  remove_first = Ends-eq _ first_eq (
    refl,
    ground arith,
    record {
      runs = record {
        head = ground arith;
        tail = ground (arith, s.tail);
        count = ground arith;
        links =
            Links-frame p.pool_nodes first_result.pool_nodes m ks s.distinct.1
              (λ k h n. ground (arith, first_apart k h))
              (λ k h. ground (arith, first_apart k, ne_of_has k m ks h s.distinct.1.0)) s.links.1;
        distinct = s.distinct.1;
        bounded = s.bounded.1;
        front = inl (ground (arith, s.distinct.0));
        back = ground (arith, s.back, first_apart (last m ks) (has-last m ks));
      };
      items_are = items-frame p first_result (m ∷ ks) (λ k h. ground (arith, first_apart k h));
      free = (
        refl,
        s.bounded.0,
        old i (ground arith),
        FreeFrom-frame p.pool_nodes first_result.pool_nodes (first_result.pool_nodes i).link fs
            (λ k h. ground (arith, old i, ne_of_has k i fs h)) (ground (arith, ==_refl i)),
      );
      within = record {
        nodes = λ k h. ground arith;
        lists = λ n h. ground arith;
        free_lists = refl;
        ready = refl;
      };
    },
  )
