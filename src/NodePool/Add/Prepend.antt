-- ===== src/NodePool/Add/Prepend.antt =====
-- ListPrepend on a list that runs through known nodes.
use monitors_and_ipc.Prelude.{
  ℕ, suc, ◌<◌, ◌+◌, ◌≡◌, inl, inr, true, false, none, some, List, [], ◌∷◌, length, ◌==◌, arith,
  refl, pos, lt→ltb, Bool-cases, ==_refl, update, if◌then◌else◌,
}
use monitors_and_ipc.NodePool.{Pool, done, max_nodes}
use monitors_and_ipc.NodePool.Links.{has, Links, Links-frame, last, ne_of_has, has-last}
use monitors_and_ipc.NodePool.Shape.{
  Shape, Ends, Ends-eq, IsLoose, items, IsFree, FreeFrom-frame, Changed, done-eq, Runs, items-frame,
}
use monitors_and_ipc.NodePool.Alloc.Take.{node_allocator-some}
use monitors_and_ipc.NodePool.Add.{prepend_node, list_prepend, start_at}

-- `p` with the free node `f` before the node `i`, holding `x`, and the list `l` longer by one.
abbrev pub prepended : (l x f i n : ℕ) → Pool → Pool
prepended l x f i n p = record p {
  free_node_head = (p.pool_nodes f).link;
  pool_nodes = λ k.
      if f == k
      then record { item = some x; next = some i; prev = none; link = none }
      else if i == k
      then record (p.pool_nodes k) { prev = some f }
      else p.pool_nodes k;
  pool_lists = update p.pool_lists l (record (p.pool_lists l) { head = some f; count = n + 1 });
}

module _ (l x f : ℕ) (p : Pool) (i : ℕ) (js fs : List ℕ) (s : Shape p l i js)
    (free : IsFree p (f ∷ fs)) (new : has f (i ∷ js) ≡ false) where
  abbrev result : Pool
  result = prepended l x f i (suc (length js)) p

  apart : (k : ℕ) → has k (i ∷ js) ≡ true → (k == f) ≡ false
  apart k h = ne_of_has k f (i ∷ js) h new

  other : (f == i) ≡ false
  other = ground (arith, apart i)

  -- The last message of ListPrepend prints the item under the cursor.
  module _ (c y : ℕ) (on : (p.pool_lists l).curr ≡ some c) (held : (p.pool_nodes c).item ≡ some y)
      (inside : c < max_nodes) (stays : (f == c) ≡ false) where
    eq_same : (i == c) ≡ true → list_prepend (some l) (some x) p ≡ done (pos 0) result
    unfolding list_prepend prepend_node
    eq_same e =
        simp
          (
            node_allocator-some p f free.0 free.1,
            ==_refl f,
            ==_refl l,
            lt→ltb f max_nodes free.1,
            s.count,
            s.head,
            lt→ltb i max_nodes s.bounded.0,
            on,
            lt→ltb c max_nodes inside,
            stays,
            (let h : (p.pool_nodes i).item ≡ some y = ground arith in h),
            other,
            e,
          )
          (done-eq (pos 0) _ _ refl refl refl (λ m. ground arith) (λ k. ground (arith, other)))

    eq_other : (i == c) ≡ false → list_prepend (some l) (some x) p ≡ done (pos 0) result
    unfolding list_prepend prepend_node
    eq_other e =
        simp
          (
            node_allocator-some p f free.0 free.1,
            ==_refl f,
            ==_refl l,
            lt→ltb f max_nodes free.1,
            s.count,
            s.head,
            lt→ltb i max_nodes s.bounded.0,
            on,
            lt→ltb c max_nodes inside,
            stays,
            held,
            other,
            e,
          )
          (done-eq (pos 0) _ _ refl refl refl (λ m. ground arith) (λ k. ground (arith, other)))

    prepend_eq : list_prepend (some l) (some x) p ≡ done (pos 0) result
    prepend_eq = elim (Bool-cases (i == c)) [ inl e ↦ eq_same e | inr e ↦ eq_other e ]

  result-Links : Links result.pool_nodes f (i ∷ js)
  result-Links = (
    (ground arith, ground (arith, other)),
    Links-frame p.pool_nodes result.pool_nodes i js s.distinct (λ k h n. ground (arith, apart k h))
        (λ k h. ground (arith, apart k, ne_of_has k i js h s.distinct.0)) s.links,
  )

  result_free : IsFree result fs
  result_free =
      FreeFrom-frame p.pool_nodes result.pool_nodes (p.pool_nodes f).link fs
        (λ k h. ground (arith, ne_of_has k f fs h free.2)) free.3

  result-items : items result (f ∷ i ∷ js) ≡ some x ∷ items p (i ∷ js)
  result-items = cc (items-frame p result (i ∷ js) (λ k h. ground (arith, apart k h)), ==_refl f)

  -- The back of the list: its marker is kept, also where the list had one node linked to itself.
  result_back : IsLoose (last i js) (result.pool_nodes (last i js)).next
  result_back = ground (arith, s.back, apart (last i js) (has-last i js))

  result-Changed : Changed l (f ∷ i ∷ js) (some x ∷ items p (i ∷ js)) fs (f ∷ i ∷ js) p result
  result-Changed = record {
    runs = record {
      head = ground arith;
      tail = ground (arith, s.tail);
      count = ground (arith, s.count);
      links = result-Links;
      distinct = (new, s.distinct);
      bounded = (free.1, s.bounded);
      front = inl (ground arith);
      back = result_back;
    };
    items_are = result-items;
    free = result_free;
    within = record {
      nodes = λ k h. ground arith;
      lists = λ m h. ground arith;
      free_lists = refl;
      ready = refl;
    };
  }

-- ListPrepend to a list with nodes, with a free node and the cursor on a node other than that one
-- that holds an item, returns 0: the item is the first of the list before the old ones in order, the
-- first free node is taken, and no other list or node changes.
pub prepend_lem :
    (l x f c y : ℕ) (p : Pool) (i : ℕ) (js fs : List ℕ)
    → Shape p l i js
    → IsFree p (f ∷ fs)
    → has f (i ∷ js) ≡ false
    → (p.pool_lists l).curr ≡ some c
    → (p.pool_nodes c).item ≡ some y
    → c < max_nodes
    → (f == c) ≡ false
    → Ends
        (λ r q.
          (r ≡ pos 0) × Changed l (f ∷ i ∷ js) (some x ∷ items p (i ∷ js)) fs (f ∷ i ∷ js) p q)
        (list_prepend (some l) (some x) p)
prepend_lem l x f c y p i js fs s free new on held inside stays =
    Ends-eq _ (prepend_eq l x f p i js fs s free new c y on held inside stays)
      (refl, result-Changed l x f p i js fs s free new)

-- `p` with the free node `f` as the only one of the list `l`, holding `x`: it is linked to itself.
abbrev pub headed : (l x f : ℕ) → Pool → Pool
headed l x f p = record p {
  free_node_head = (p.pool_nodes f).link;
  pool_nodes = λ k.
      if f == k
      then record { item = some x; next = some f; prev = some f; link = none }
      else p.pool_nodes k;
  pool_lists = update p.pool_lists l (record (start_at f (p.pool_lists l)) { count = 0 + 1 });
}

module _ (l x f : ℕ) (p : Pool) (fs : List ℕ) (s : Runs p l []) (free : IsFree p (f ∷ fs)) where
  list_prepend_start : list_prepend (some l) (some x) p ≡ done (pos 0) (headed l x f p)
  unfolding list_prepend prepend_node
  list_prepend_start =
      simp
        (node_allocator-some p f free.0 free.1, ==_refl f, ==_refl l, lt→ltb f max_nodes free.1, s)
        (done-eq (pos 0) _ _ refl refl refl (λ m. ground arith) (λ k. ground arith))

  start-Changed : Changed l (f ∷ []) (some x ∷ []) fs (f ∷ []) p (headed l x f p)
  start-Changed = record {
    runs = record {
      head = ground arith;
      tail = ground arith;
      count = ground arith;
      links = tt;
      distinct = (refl, tt);
      bounded = (free.1, tt);
      front = inr (ground arith);
      back = inr (ground arith);
    };
    items_are = ground arith;
    free =
        FreeFrom-frame p.pool_nodes (headed l x f p).pool_nodes (p.pool_nodes f).link fs
          (λ k h. ground (arith, ne_of_has k f fs h free.2)) free.3;
    within = record {
      nodes = λ k h. ground arith;
      lists = λ m h. ground arith;
      free_lists = refl;
      ready = refl;
    };
  }

-- ListPrepend to an empty list with a free node returns 0, and the list holds the item alone, in the
-- first free node; no other list or node changes.
pub prepend_empty :
    (l x f : ℕ) (p : Pool) (fs : List ℕ)
    → Runs p l []
    → IsFree p (f ∷ fs)
    → Ends
        (λ r q. (r ≡ pos 0) × Changed l (f ∷ []) (some x ∷ []) fs (f ∷ []) p q)
        (list_prepend (some l) (some x) p)
prepend_empty l x f p fs s free =
    Ends-eq _ (list_prepend_start l x f p fs s free) (refl, start-Changed l x f p fs s free)
