-- ===== src/NodePool/Remove/AtLast.antt =====
-- ListRemove at the last node of a list.
use monitors_and_ipc.Prelude.{
  ℕ, suc, ◌<◌, ◌-◌, ◌≡◌, inl, true, false, none, some, List, [], ◌∷◌, ◌++◌, length, All, ◌==◌,
  arith, refl, lt→ltb, ==_refl, update, if◌then◌else◌, length-append,
}
use monitors_and_ipc.NodePool.{Pool, done, max_nodes}
use monitors_and_ipc.NodePool.Links.{
  has, Distinct, Joined, Links, Links-frame, Links-split, last, ne_of_other, ne_of_has, has-last,
  Distinct-append, has-append,
}
use monitors_and_ipc.NodePool.Shape.{
  Shape, Ends, Ends-eq, items, IsFree, FreeFrom-frame, Changed, bounded_last, done-eq, items-frame,
  All-split,
}
use monitors_and_ipc.NodePool.Remove.{unlink_node, list_remove}

-- `p` with the last node `d` freed, and `c` last.
abbrev pub trimmed : (l c d n : ℕ) → Pool → Pool
trimmed l c d n p = record p {
  free_node_head = some d;
  pool_nodes = λ k.
      if d == k
      then record { item = none; next = none; prev = none; link = p.free_node_head }
      else if c == k
      then record (p.pool_nodes k) { next = none }
      else p.pool_nodes k;
  pool_lists = update p.pool_lists l (record (p.pool_lists l) {
    tail = some c;
    curr = some c;
    count = n;
    before = false;
    after = false;
  });
}

module _ (l : ℕ) (p : Pool) (i : ℕ) (js : List ℕ) (d : ℕ) (fs : List ℕ)
    (s : Shape p l i (js ++ d ∷ [])) (free : IsFree p fs)
    (old : (k : ℕ) → has k (i ∷ js ++ d ∷ []) ≡ true → has k fs ≡ false)
    (marked : (p.pool_nodes d).next ≡ none) (on : (p.pool_lists l).curr ≡ some d)
    (not_after : (p.pool_lists l).after ≡ false)
    (not_before : (p.pool_lists l).before ≡ false) where
  abbrev c : ℕ
  c = last i js

  abbrev last_result : Pool
  last_result = trimmed l c d (suc (length js)) p

  parts :
      Distinct (i ∷ js)
      × Distinct (d ∷ [])
      × ((k : ℕ) → has k (i ∷ js) ≡ true → has k (d ∷ []) ≡ false)
  parts = Distinct-append (i ∷ js) (d ∷ []) s.distinct

  runs : Links p.pool_nodes i js × (Joined p.pool_nodes c d) × Unit {0}
  runs = Links-split p.pool_nodes i js d [] s.links

  bounds : All (λ k. k < max_nodes) (i ∷ js) × All (λ k. k < max_nodes) (d ∷ [])
  bounds = All-split (λ k. k < max_nodes) (i ∷ js) (d ∷ []) s.bounded

  last_apart : (k : ℕ) → has k (i ∷ js) ≡ true → (d == k) ≡ false
  last_apart k h = ground (arith, parts.2 k h)

  count_left : suc (length (js ++ d ∷ [])) - 1 ≡ suc (length js)
  count_left = omega (arith, length-append js (d ∷ []))

  last_eq : list_remove (some l) p ≡ done (p.pool_nodes d).item last_result
  unfolding list_remove unlink_node
  last_eq =
      simp
        (
          s.count,
          on,
          not_after,
          not_before,
          ==_refl d,
          ==_refl l,
          lt→ltb c max_nodes (bounded_last i js bounds.0),
          lt→ltb d max_nodes bounds.1.0,
          marked,
          runs.1.1,
          count_left,
        )
        (done-eq (p.pool_nodes d).item _ _ refl refl refl (λ n. ground arith)
          (λ k. ground (arith, last_apart c (has-last i js))))

  -- ListRemove with the cursor on the last of at least two nodes, whose `next` is -1, returns its
  -- item; the list keeps the other nodes and items in order, the cursor moves to the new last
  -- node, the node comes first on the free list, and no other list or node changes.
  pub remove_last :
      Ends
        (λ x q.
          (x ≡ (p.pool_nodes d).item)
          × ((q.pool_lists l).curr ≡ some c)
          × Changed l (i ∷ js) (items p (i ∷ js)) (d ∷ fs) (i ∷ js ++ d ∷ []) p q)
        (list_remove (some l) p)
  remove_last = Ends-eq _ last_eq (
    refl,
    ground arith,
    record {
      runs = record {
        head = ground (arith, s.head);
        tail = ground arith;
        count = ground arith;
        links =
            Links-frame p.pool_nodes last_result.pool_nodes i js parts.0
              (λ k h n. ground (arith, last_apart k h)) (λ k h. ground (arith, last_apart k))
              runs.0;
        distinct = parts.0;
        bounded = bounds.0;
        front = ground (arith, s.front, last_apart i);
        back = inl (ground (arith, last_apart c (has-last i js)));
      };
      items_are = items-frame p last_result (i ∷ js) (λ k h. ground (arith, last_apart k h));
      free = (
        refl,
        bounds.1.0,
        old d (ground (arith, has-append d (i ∷ js) (d ∷ []))),
        FreeFrom-frame p.pool_nodes last_result.pool_nodes (last_result.pool_nodes d).link fs
            (λ k h. ground (arith, old d, has-append d (i ∷ js) (d ∷ []), ne_of_has k d fs h))
            (ground (arith, ==_refl d)),
      );
      within = record {
        nodes = λ k h.
            ground (arith, has-append k (i ∷ js) (d ∷ []), ne_of_other k c (i ∷ js), has-last i js);
        lists = λ n h. ground arith;
        free_lists = refl;
        ready = refl;
      };
    },
  )
