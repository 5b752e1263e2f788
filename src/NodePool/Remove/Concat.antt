-- ===== src/NodePool/Remove/Concat.antt =====
-- ListConcat of two lists with nodes of their own.
use monitors_and_ipc.Prelude.{
  ℕ, suc, ◌<◌, ◌+◌, ◌≡◌, ◌∙◌, true, false, some, List, [], ◌∷◌, ◌++◌, length, ◌==◌, arith, refl,
  lt→ltb, ==_refl, update, if◌then◌else◌, length-append,
}
use mathlib.Core.List.{map-append}
use monitors_and_ipc.NodePool.{Pool, done, max_nodes}
use monitors_and_ipc.NodePool.Links.{
  has, Links-frame, Links-append, last, ne_of_has, has-last, last-append, Distinct-join,
}
use monitors_and_ipc.NodePool.Shape.{
  Shape, Ends, Ends-eq, items, bounded_last, done-eq, Runs, items-frame, All-append,
}
use monitors_and_ipc.NodePool.Remove.{list_concat, retire}

-- `p` with the node `b` behind the node `t`, the list `l` longer and the list `m` given back.
abbrev pub chained : (l m t b u n : ℕ) → Pool → Pool
chained l m t b u n p = record p {
  free_list_head = some m;
  pool_nodes = λ k.
      if t == k
      then record (p.pool_nodes k) { next = some b }
      else if b == k
      then record (p.pool_nodes k) { prev = some t }
      else p.pool_nodes k;
  pool_lists =
      update (update p.pool_lists l (record (p.pool_lists l) { tail = some u; count = n })) m
        (retire p.free_list_head (p.pool_lists m));
}

module _ (l m : ℕ) (p : Pool) (i : ℕ) (js : List ℕ) (b : ℕ) (ks : List ℕ) (s : Shape p l i js)
    (r : Shape p m b ks) (two : (m == l) ≡ false)
    (apart : (k : ℕ) → has k (i ∷ js) ≡ true → has k (b ∷ ks) ≡ false) where
  abbrev t : ℕ
  t = last i js

  abbrev result : Pool
  result = chained l m t b (last b ks) (suc (length js) + suc (length ks)) p

  off_tb : (t == b) ≡ false
  off_tb = ground (arith, apart t (has-last i js))

  concat_eq : list_concat (some l) (some m) p ≡ done tt result
  unfolding list_concat
  concat_eq =
      simp
        (
          s.count,
          s.tail,
          r.count,
          r.head,
          r.tail,
          ==_refl l,
          lt→ltb t max_nodes (bounded_last i js s.bounded),
          lt→ltb b max_nodes r.bounded.0,
        )
        (done-eq tt _ _ refl refl refl (λ n. ground (arith, s.count, r.count))
          (λ k. ground (arith, off_tb)))

  back_apart : (k : ℕ) → has k (b ∷ ks) ≡ true → (t == k) ≡ false
  back_apart k h = ground (arith, ne_of_has k t (b ∷ ks) h (apart t (has-last i js)))

  front_apart : (k : ℕ) → has k (i ∷ js) ≡ true → (b == k) ≡ false
  front_apart k h = ground (arith, apart k h)

  -- ListConcat of two lists with nodes, different and with no node in common, makes the first run
  -- through its nodes and then those of the second, with their items in order and its cursor as
  -- before; the second is empty and comes first on the free lists, and the head of the free nodes
  -- is as before.
  pub concat_append :
      Ends
        (λ _ q.
          Shape q l i (js ++ b ∷ ks)
          × (items q (i ∷ js ++ b ∷ ks) ≡ items p (i ∷ js) ++ items p (b ∷ ks))
          × ((q.pool_lists l).curr ≡ (p.pool_lists l).curr)
          × Runs q m []
          × (q.free_list_head ≡ some m)
          × ((q.pool_lists m).link ≡ p.free_list_head)
          × (q.free_node_head ≡ p.free_node_head))
        (list_concat (some l) (some m) p)
  concat_append = Ends-eq _ concat_eq (
    record {
      head = ground (arith, s.head);
      tail = ground (arith, last-append i js b ks);
      count = ground (arith, length-append js (b ∷ ks));
      links =
          Links-append result.pool_nodes i js b ks
            (Links-frame p.pool_nodes result.pool_nodes i js s.distinct
              (λ k h n. ground (arith, front_apart k h)) (λ k h. ground (arith, front_apart k))
              s.links)
            (ground arith, ground (arith, off_tb))
            (Links-frame p.pool_nodes result.pool_nodes b ks r.distinct
              (λ k h n. ground (arith, back_apart k h))
              (λ k h. ground (arith, back_apart k, ne_of_has k b ks h r.distinct.0)) r.links);
      distinct = Distinct-join (i ∷ js) (b ∷ ks) s.distinct r.distinct apart;
      bounded = All-append (λ k. k < max_nodes) (i ∷ js) (b ∷ ks) s.bounded r.bounded;
      front = ground (arith, s.front, front_apart i);
      back = rw last-append (ground (arith, r.back, back_apart (last b ks) (has-last b ks)));
    },
    map-append (λ k. (result.pool_nodes k).item) (i ∷ js) (b ∷ ks)
        ∙ cc (
          items-frame p result (i ∷ js) (λ k h. ground arith),
          items-frame p result (b ∷ ks) (λ k h. ground arith),
        ),
    ground arith,
    ground arith,
    refl,
    ground arith,
    refl,
  )
