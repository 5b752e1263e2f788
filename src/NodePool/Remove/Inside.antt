-- ===== src/NodePool/Remove/Inside.antt =====
-- ListRemove at a node with a neighbour on either side.
use monitors_and_ipc.Prelude.{
  ℕ, suc, ◌<◌, ◌-◌, ◌≡◌, ◌∙◌, true, false, none, some, List, ◌∷◌, ◌++◌, length, All, ◌==◌, arith,
  refl, lt→ltb, ==_refl, update, if◌then◌else◌, length-append,
}
use mathlib.Core.List.{map-append}
use monitors_and_ipc.NodePool.{Pool, done, max_nodes, LinkedList}
use monitors_and_ipc.NodePool.Links.{
  has, Distinct, Joined, Links, Links-frame, Links-append, Links-split, last, ne_of_other,
  ne_of_has, has-last, last-append, Distinct-remove, Distinct-append, has-append,
}
use monitors_and_ipc.NodePool.Shape.{
  Shape, Ends, Ends-eq, IsLoose, items, IsFree, FreeFrom-frame, Changed, bounded_last, done-eq,
  items-frame, All-append, All-split,
}
use monitors_and_ipc.NodePool.Remove.{unlink_node, list_remove}

-- `p` with the node `d` freed, its neighbours `c` and `m` joined, and `a` for the list `l`.
abbrev pub joined : (l c d m : ℕ) → LinkedList → Pool → Pool
joined l c d m a p = record p {
  free_node_head = some d;
  pool_nodes = λ k.
      if d == k
      then record { item = none; next = none; prev = none; link = p.free_node_head }
      else if c == k
      then record (p.pool_nodes k) { next = some m }
      else if m == k
      then record (p.pool_nodes k) { prev = some c }
      else p.pool_nodes k;
  pool_lists = update p.pool_lists l a;
}

module _ (l : ℕ) (p : Pool) (i : ℕ) (js : List ℕ) (d m : ℕ) (ks fs : List ℕ)
    (s : Shape p l i (js ++ d ∷ m ∷ ks)) (free : IsFree p fs)
    (old : (k : ℕ) → has k (i ∷ js ++ d ∷ m ∷ ks) ≡ true → has k fs ≡ false) where
  abbrev c : ℕ
  c = last i js

  abbrev shorter : LinkedList
  shorter = record (p.pool_lists l) {
    curr = some m;
    count = suc (length (js ++ m ∷ ks));
    before = false;
    after = false;
  }

  abbrev result : Pool
  result = joined l c d m shorter p

  parts :
      Distinct (i ∷ js)
      × Distinct (d ∷ m ∷ ks)
      × ((k : ℕ) → has k (i ∷ js) ≡ true → has k (d ∷ m ∷ ks) ≡ false)
  parts = Distinct-append (i ∷ js) (d ∷ m ∷ ks) s.distinct

  runs : Links p.pool_nodes i js × (Joined p.pool_nodes c d) × Links p.pool_nodes d (m ∷ ks)
  runs = Links-split p.pool_nodes i js d (m ∷ ks) s.links

  off_cd : (c == d) ≡ false
  off_cd = ground (arith, parts.2 c (has-last i js))

  off_dc : (d == c) ≡ false
  off_dc = ground (arith, off_cd)

  off_cm : (c == m) ≡ false
  off_cm = ground (arith, parts.2 c (has-last i js))

  off_dm : (d == m) ≡ false
  off_dm = ground (arith, parts.1.0)

  bounds : All (λ k. k < max_nodes) (i ∷ js) × All (λ k. k < max_nodes) (d ∷ m ∷ ks)
  bounds = All-split (λ k. k < max_nodes) (i ∷ js) (d ∷ m ∷ ks) s.bounded

  left : length (js ++ d ∷ m ∷ ks) ≡ suc (length (js ++ m ∷ ks))
  left = omega (arith, length-append js (d ∷ m ∷ ks), length-append js (m ∷ ks))

  count_left : suc (length (js ++ d ∷ m ∷ ks)) - 1 ≡ suc (length (js ++ m ∷ ks))
  count_left = omega (arith, left)

  list_remove_eq :
      (p.pool_lists l).curr ≡ some d
      → (p.pool_lists l).after ≡ false
      → (p.pool_lists l).before ≡ false
      → list_remove (some l) p ≡ done (p.pool_nodes d).item result
  unfolding list_remove unlink_node
  list_remove_eq on not_after not_before =
      simp
        (
          s.count,
          on,
          not_after,
          not_before,
          ==_refl d,
          ==_refl l,
          lt→ltb c max_nodes (bounded_last i js bounds.0),
          lt→ltb d max_nodes bounds.1.0,
          lt→ltb m max_nodes bounds.1.1.0,
          runs.1.1,
          runs.2.0.0,
          count_left,
        )
        (done-eq (p.pool_nodes d).item _ _ refl refl refl (λ n. ground (arith, count_left))
          (λ k. ground (arith, off_dc, off_cm, off_dm)))

  front_apart : (k : ℕ) → has k (i ∷ js) ≡ true → ((d == k) ≡ false) × ((m == k) ≡ false)
  front_apart k h = (ground (arith, parts.2 k h), ground (arith, parts.2 k h))

  back_apart : (k : ℕ) → has k (m ∷ ks) ≡ true → ((d == k) ≡ false) × ((c == k) ≡ false)
  back_apart k h = (
    ground (arith, ne_of_has k d (m ∷ ks) h parts.1.0),
    ground (arith, ne_of_has k c (d ∷ m ∷ ks), parts.2 c (has-last i js)),
  )

  front-Links : Links result.pool_nodes i js
  front-Links =
      Links-frame p.pool_nodes result.pool_nodes i js parts.0
        (λ k h n. ground (arith, front_apart k h)) (λ k h. ground (arith, front_apart k)) runs.0

  back-Links : Links result.pool_nodes m ks
  back-Links =
      Links-frame p.pool_nodes result.pool_nodes m ks parts.1.1
        (λ k h n. ground (arith, back_apart k h))
        (λ k h. ground (arith, back_apart k, ne_of_has k m ks h parts.1.1.0)) runs.2.1

  result-Links : Links result.pool_nodes i (js ++ m ∷ ks)
  result-Links =
      Links-append result.pool_nodes i js m ks front-Links
        (ground (arith, off_dc), ground (arith, off_dm, off_cm)) back-Links

  result_free : IsFree result (d ∷ fs)
  result_free = (
    refl,
    bounds.1.0,
    old d (ground (arith, has-append d (i ∷ js) (d ∷ m ∷ ks))),
    FreeFrom-frame p.pool_nodes result.pool_nodes (result.pool_nodes d).link fs
        (λ k h. ground (arith, old d, has-append d (i ∷ js) (d ∷ m ∷ ks), ne_of_has k d fs h))
        (ground (arith, ==_refl d)),
  )

  result-items : items result (i ∷ js ++ m ∷ ks) ≡ items p (i ∷ js) ++ items p (m ∷ ks)
  result-items =
      map-append (λ k. (result.pool_nodes k).item) (i ∷ js) (m ∷ ks)
      ∙ cc (
        items-frame p result (i ∷ js) (λ k h. ground (arith, front_apart k h)),
        items-frame p result (m ∷ ks) (λ k h. ground (arith, back_apart k h)),
      )

  result_back : IsLoose (last m ks) (result.pool_nodes (last m ks)).next
  result_back =
      let e : last i (js ++ d ∷ m ∷ ks) ≡ last m ks = last-append i js d (m ∷ ks) in
      let held : IsLoose (last m ks) (p.pool_nodes (last m ks)).next = rw e at s.back in
      ground (arith, held, back_apart (last m ks) (has-last m ks))

  result-Changed :
      Changed l
        (i ∷ js ++ m ∷ ks)
        (items p (i ∷ js) ++ items p (m ∷ ks))
        (d ∷ fs)
        (i ∷ js ++ d ∷ m ∷ ks)
        p
        result
  result-Changed = record {
    runs = record {
      head = ground (arith, s.head);
      tail = ground (arith, s.tail, last-append i js d (m ∷ ks), last-append i js m ks);
      count = ground arith;
      links = result-Links;
      distinct = (Distinct-remove (i ∷ js) d (m ∷ ks) s.distinct).0;
      bounded = All-append (λ k. k < max_nodes) (i ∷ js) (m ∷ ks) bounds.0 bounds.1.1;
      front = ground (arith, s.front, front_apart i);
      back = rw last-append result_back;
    };
    items_are = result-items;
    free = result_free;
    within = record {
      nodes = λ k h.
          ground
            (arith, has-append k (i ∷ js) (d ∷ m ∷ ks), ne_of_other k c (i ∷ js), has-last i js);
      lists = λ n h. ground arith;
      free_lists = refl;
      ready = refl;
    };
  }

-- ListRemove with the cursor on a node between two others returns its item; the list keeps the
-- other nodes and items in order, the cursor moves to the next node, the node comes first on the
-- free list, and no other list or node changes.
pub remove_inside :
    (l : ℕ) (p : Pool) (i : ℕ) (js : List ℕ) (d m : ℕ) (ks fs : List ℕ)
    → Shape p l i (js ++ d ∷ m ∷ ks)
    → IsFree p fs
    → ((k : ℕ) → has k (i ∷ js ++ d ∷ m ∷ ks) ≡ true → has k fs ≡ false)
    → (p.pool_lists l).curr ≡ some d
    → (p.pool_lists l).after ≡ false
    → (p.pool_lists l).before ≡ false
    → Ends
        (λ x q.
          (x ≡ (p.pool_nodes d).item)
          × ((q.pool_lists l).curr ≡ some m)
          × Changed l
              (i ∷ js ++ m ∷ ks)
              (items p (i ∷ js) ++ items p (m ∷ ks))
              (d ∷ fs)
              (i ∷ js ++ d ∷ m ∷ ks)
              p
              q)
        (list_remove (some l) p)
remove_inside l p i js d m ks fs s free old on not_after not_before =
    Ends-eq _ (list_remove_eq l p i js d m ks fs s free old on not_after not_before)
      (refl, ground arith, result-Changed l p i js d m ks fs s free old)
