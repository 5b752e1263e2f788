-- ===== src/NodePool/Remove/Only.antt =====
-- ListRemove at the only node of a list, and at a first node that is linked to itself.
use monitors_and_ipc.Prelude.{
  ℕ, suc, ◌-◌, ◌≡◌, inl, inr, true, false, none, some, List, [], ◌∷◌, length, ◌==◌, arith, refl,
  lt→ltb, ==_refl, update, if◌then◌else◌,
}
use monitors_and_ipc.NodePool.{Index, Pool, done, max_nodes}
use monitors_and_ipc.NodePool.Links.{has, ne_of_has}
use monitors_and_ipc.NodePool.Shape.{
  Shape, Ends, Ends-eq, IsLoose, IsFree, FreeFrom-frame, Changed, done-eq,
}
use monitors_and_ipc.NodePool.Remove.{unlink_node, list_remove}
use monitors_and_ipc.NodePool.Add.{is_valid}
use monitors_and_ipc.NodePool.Move.{list_first}

-- `p` with the only node `i` freed, whose neighbours were marked `before` and `behind`. What the
-- joining of the neighbours writes ends up in the freed node.
abbrev pub emptied : (l i : ℕ) (before behind : Index) → Pool → Pool
emptied l i before behind p = record p {
  free_node_head = some i;
  pool_nodes = λ k.
      if i == k
      then record {
        item = none;
        next = if is_valid before then behind else none;
        prev = if is_valid behind then before else none;
        link = p.free_node_head;
      }
      else p.pool_nodes k;
  pool_lists = update p.pool_lists l (record (p.pool_lists l) {
    head = if is_valid before then some i else behind;
    tail = if is_valid behind then some i else before;
    curr = none;
    count = 0;
    before = true;
    after = false;
  });
}

module _ (l : ℕ) (p : Pool) (i : ℕ) (fs : List ℕ) (s : Shape p l i []) (free : IsFree p fs)
    (old : has i fs ≡ false) (on : (p.pool_lists l).curr ≡ some i)
    (not_after : (p.pool_lists l).after ≡ false)
    (not_before : (p.pool_lists l).before ≡ false) where
  abbrev only_result : Pool
  only_result = emptied l i (p.pool_nodes i).prev (p.pool_nodes i).next p

  only_eq :
      IsLoose i (p.pool_nodes i).prev
      → IsLoose i (p.pool_nodes i).next
      → list_remove (some l) p ≡ done (p.pool_nodes i).item only_result
  unfolding list_remove unlink_node
  only_eq (inl a) (inl b) =
      simp
        (
          s.count,
          on,
          not_after,
          not_before,
          ==_refl i,
          ==_refl l,
          lt→ltb i max_nodes s.bounded.0,
          a,
          b,
        )
        (done-eq (p.pool_nodes i).item _ _ refl refl refl (λ n. ground (arith, s.head, s.tail))
          (λ k. ground arith))
  only_eq (inl a) (inr b) =
      simp
        (
          s.count,
          on,
          not_after,
          not_before,
          ==_refl i,
          ==_refl l,
          lt→ltb i max_nodes s.bounded.0,
          a,
          b,
        )
        (done-eq (p.pool_nodes i).item _ _ refl refl refl (λ n. ground (arith, s.head, s.tail))
          (λ k. ground arith))
  only_eq (inr a) (inl b) =
      simp
        (
          s.count,
          on,
          not_after,
          not_before,
          ==_refl i,
          ==_refl l,
          lt→ltb i max_nodes s.bounded.0,
          a,
          b,
        )
        (done-eq (p.pool_nodes i).item _ _ refl refl refl (λ n. ground (arith, s.head, s.tail))
          (λ k. ground arith))
  only_eq (inr a) (inr b) =
      simp
        (
          s.count,
          on,
          not_after,
          not_before,
          ==_refl i,
          ==_refl l,
          lt→ltb i max_nodes s.bounded.0,
          a,
          b,
        )
        (done-eq (p.pool_nodes i).item _ _ refl refl refl (λ n. ground (arith, s.head, s.tail))
          (λ k. ground arith))

  -- ListRemove of the only node of a list, whose `prev` and `next` are each -1 or the node itself,
  -- returns its item and leaves the list empty with the cursor at -1; the node comes first on the
  -- free list, and no other list or node changes.
  pub remove_only :
      Ends
        (λ x q.
          (x ≡ (p.pool_nodes i).item)
          × ((q.pool_lists l).curr ≡ none)
          × Changed l [] [] (i ∷ fs) (i ∷ []) p q)
        (list_remove (some l) p)
  remove_only = Ends-eq _ (only_eq s.front s.back) (
    refl,
    ground arith,
    record {
      runs = ground arith;
      items_are = refl;
      free = (
        refl,
        s.bounded.0,
        old,
        FreeFrom-frame p.pool_nodes only_result.pool_nodes (only_result.pool_nodes i).link fs
            (λ k h. ground (arith, ne_of_has k i fs h old)) (ground (arith, ==_refl i)),
      );
      within = record {
        nodes = λ k h. ground arith;
        lists = λ n h. ground arith;
        free_lists = refl;
        ready = refl;
      };
    },
  )

-- `p` after ListRemove at a first node `i` that is linked to itself, with `m` behind it.
abbrev pub stranded : (l i m n : ℕ) → Pool → Pool
stranded l i m n p = record p {
  free_node_head = some i;
  pool_nodes = λ k.
      if i == k
      then record { item = none; next = some m; prev = none; link = p.free_node_head }
      else if m == k
      then record (p.pool_nodes k) { prev = some i }
      else p.pool_nodes k;
  pool_lists =
      update p.pool_lists l
        (record (p.pool_lists l) { curr = some m; count = n; before = false; after = false });
}

module _ (l : ℕ) (p : Pool) (i m : ℕ) (ks : List ℕ) (s : Shape p l i (m ∷ ks))
    (looped : (p.pool_nodes i).prev ≡ some i) (on : (p.pool_lists l).curr ≡ some i)
    (not_after : (p.pool_lists l).after ≡ false)
    (not_before : (p.pool_lists l).before ≡ false) where
  pub stranded_eq :
      list_remove (some l) p ≡ done (p.pool_nodes i).item (stranded l i m (suc (length ks)) p)
  unfolding list_remove unlink_node
  stranded_eq =
      simp
        (
          s.count,
          on,
          not_after,
          not_before,
          ==_refl i,
          ==_refl l,
          lt→ltb i max_nodes s.bounded.0,
          lt→ltb m max_nodes s.bounded.1.0,
          looped,
          s.links.0.0,
          (let h : suc (suc (length ks)) - 1 ≡ suc (length ks) = omega arith in h),
        )
        (done-eq (p.pool_nodes i).item _ _ refl refl refl (λ n. ground arith)
          (λ k. ground (arith, s.distinct.0)))

  first_stranded :
      (q : Pool)
      → q ≡ stranded l i m (suc (length ks)) p
      → Ends (λ x r. x ≡ none) (list_first (some l) q)
  unfolding list_first
  first_stranded q e = simp (e, ==_refl l, s.head, lt→ltb i max_nodes s.bounded.0, ==_refl i)

  -- When the first of at least two nodes is its own `prev`, as ListAppend on an empty list leaves
  -- it, ListRemove with the cursor there returns its item and frees it, but `head` still names the
  -- freed node, and ListFirst then returns NULL though the count is positive.
  pub remove_looped :
      Ends
        (λ x q.
          (x ≡ (p.pool_nodes i).item)
          × ((q.pool_lists l).count ≡ suc (length ks))
          × ((q.pool_lists l).head ≡ some i)
          × (q.free_node_head ≡ some i)
          × Ends (λ y r. y ≡ none) (list_first (some l) q))
        (list_remove (some l) p)
  remove_looped =
      Ends-eq _ stranded_eq
        (refl, ground arith, ground (arith, s.head), refl, first_stranded _ refl)
