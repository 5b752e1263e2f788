-- ===== src/NodePool/Add/Append.antt =====
-- ListAppend on a list that runs through known nodes.
use monitors_and_ipc.Prelude.{
  ℕ, suc, ◌<◌, ◌+◌, ◌≡◌, inl, inr, ◌∙◌, true, false, none, some, List, [], ◌∷◌, ◌++◌, length, ◌==◌,
  arith, refl, pos, lt→ltb, ==_refl, update, if◌then◌else◌, minus_one, ℤ, true, length-append,
}
use mathlib.Core.List.{map-append, append-nil}
use monitors_and_ipc.NodePool.{Pool, done, max_nodes, LinkedList}
use monitors_and_ipc.NodePool.Links.{
  has, Links, Links-frame, Links-append, last, ne_of_other, ne_of_has, has-last, last-append,
  Distinct-insert,
}
use monitors_and_ipc.NodePool.Shape.{
  Shape, Ends, Ends-eq, items, IsFree, FreeFrom-frame, Changed, bounded_last, done-eq, Runs,
  items-frame, All-append,
}
use monitors_and_ipc.NodePool.Alloc.Take.{node_allocator-some, node_allocator-none}
use monitors_and_ipc.NodePool.Add.{append_node, list_append, start_at}

abbrev pub grown : ℕ → ℕ → LinkedList → LinkedList
grown f n a = record a { tail = some f; count = n + 1; before = false; after = false }

-- `p` with the free node `f` behind the node `t`, holding `x`, and the list `l` of `n` nodes longer.
abbrev pub appended : (l x f t n : ℕ) → Pool → Pool
appended l x f t n p = record p {
  free_node_head = (p.pool_nodes f).link;
  pool_nodes = λ k.
      if f == k
      then record { item = some x; next = none; prev = some t; link = none }
      else if t == k
      then record (p.pool_nodes k) { next = some f }
      else p.pool_nodes k;
  pool_lists = update p.pool_lists l (grown f n (p.pool_lists l));
}

module _ (l x f : ℕ) (p : Pool) (i : ℕ) (js fs : List ℕ) (s : Shape p l i js)
    (free : IsFree p (f ∷ fs)) (new : has f (i ∷ js) ≡ false) where
  other : (last i js == f) ≡ false
  other = ground (arith, ne_of_other f (last i js) (i ∷ js) new (has-last i js))

  abbrev result : Pool
  result = appended l x f (last i js) (suc (length js)) p

  list_append_eq : list_append (some l) (some x) p ≡ done (pos 0) result
  unfolding list_append append_node
  list_append_eq =
      simp
        (
          node_allocator-some p f free.0 free.1,
          ==_refl f,
          lt→ltb f max_nodes free.1,
          s.count,
          s.tail,
          lt→ltb (last i js) max_nodes (bounded_last i js s.bounded),
        )
        (done-eq (pos 0) _ _ refl refl refl (λ m. ground arith) (λ k. ground (arith, other)))

  apart : (k : ℕ) → has k (i ∷ js) ≡ true → (k == f) ≡ false
  apart k h = ne_of_has k f (i ∷ js) h new

  result-Links : Links result.pool_nodes i (js ++ f ∷ [])
  result-Links =
      Links-append result.pool_nodes i js f []
        (Links-frame p.pool_nodes result.pool_nodes i js s.distinct
          (λ k h n. ground (arith, apart k h)) (λ k h. ground (arith, apart k)) s.links)
        (ground (arith, other), ground (arith, other)) tt

  result_free : IsFree result fs
  result_free =
      FreeFrom-frame p.pool_nodes result.pool_nodes (p.pool_nodes f).link fs
        (λ k h. ground (arith, ne_of_has k f fs h free.2)) free.3

  result-items : items result (i ∷ js ++ f ∷ []) ≡ items p (i ∷ js) ++ some x ∷ []
  result-items =
      map-append (λ k. (result.pool_nodes k).item) (i ∷ js) (f ∷ [])
      ∙ cc (items-frame p result (i ∷ js) (λ k h. ground (arith, apart k h)), ==_refl f)

  result-Shape : Shape result l i (js ++ f ∷ [])
  result-Shape = record {
    head = ground (arith, s.head);
    tail = ground (arith, last-append i js f []);
    count = ground (arith, length-append js (f ∷ []));
    links = result-Links;
    distinct = Distinct-insert (i ∷ js) f [] (rw append-nil s.distinct) (rw append-nil new);
    bounded = All-append (λ k. k < max_nodes) (i ∷ js) (f ∷ []) s.bounded (free.1, tt);
    front = ground (arith, s.front, apart i, other);
    back = rw (last-append i js f []) (inl (ground arith));
  }

  append_shape :
      Ends
        (λ r q.
          (r ≡ pos 0)
          × Changed l (i ∷ js ++ f ∷ []) (items p (i ∷ js) ++ some x ∷ []) fs (f ∷ i ∷ js) p q)
        (list_append (some l) (some x) p)
  append_shape = Ends-eq _ list_append_eq (
    refl,
    record {
      runs = result-Shape;
      items_are = result-items;
      free = result_free;
      within = record {
        nodes = λ k h. ground (arith, has-last i js, ne_of_other k (last i js) (i ∷ js));
        lists = λ m h. ground arith;
        free_lists = refl;
        ready = refl;
      };
    },
  )

-- In an empty list the new node is linked to itself in both directions.
abbrev pub started : (l x f : ℕ) → Pool → Pool
started l x f p = record p {
  free_node_head = (p.pool_nodes f).link;
  pool_nodes = λ k.
      if f == k
      then record { item = some x; next = some f; prev = some f; link = none }
      else p.pool_nodes k;
  pool_lists = update p.pool_lists l (grown f 0 (start_at f (p.pool_lists l)));
}

module _ (l x f : ℕ) (p : Pool) (fs : List ℕ) (s : Runs p l []) (free : IsFree p (f ∷ fs)) where
  list_append_start : list_append (some l) (some x) p ≡ done (pos 0) (started l x f p)
  unfolding list_append append_node
  list_append_start =
      simp
        (node_allocator-some p f free.0 free.1, ==_refl f, ==_refl l, lt→ltb f max_nodes free.1, s)
        (done-eq (pos 0) _ _ refl refl refl (λ m. ground arith) (λ k. ground arith))

  append_start :
      Ends
        (λ r q. (r ≡ pos 0) × Changed l (f ∷ []) (some x ∷ []) fs (f ∷ []) p q)
        (list_append (some l) (some x) p)
  append_start = Ends-eq _ list_append_start (
    refl,
    record {
      runs = record {
        head = ground arith;
        tail = ground arith;
        count = ground arith;
        links = tt;
        distinct = (refl, tt);
        bounded = (free.1, tt);
        front = inr (ground arith);
        back = inr (ground arith);
      };
      items_are = ground arith;
      free =
          FreeFrom-frame p.pool_nodes (started l x f p).pool_nodes (p.pool_nodes f).link fs
            (λ k h. ground (arith, ne_of_has k f fs h free.2)) free.3;
      within = record {
        nodes = λ k h. ground (arith);
        lists = λ m h. ground arith;
        free_lists = refl;
        ready = refl;
      };
    },
  )

pub append_lem :
    (l x f : ℕ) (p : Pool) (is fs : List ℕ)
    → Runs p l is
    → IsFree p (f ∷ fs)
    → has f is ≡ false
    → Ends
        (λ r q. (r ≡ pos 0) × Changed l (is ++ f ∷ []) (items p is ++ some x ∷ []) fs (f ∷ is) p q)
        (list_append (some l) (some x) p)
append_lem l x f p [] fs s free new = append_start l x f p fs s free
append_lem l x f p (i ∷ js) fs s free new = append_shape l x f p i js fs s free new

append_full :
    (l x : ℕ) (p : Pool) → IsFree p [] → list_append (some l) (some x) p ≡ done minus_one p
unfolding list_append
append_full l x p e = simp (node_allocator-none p e)

-- What ListAppend of `x` to the list `l` of the nodes `is` answers and leaves, by the free nodes.
abbrev pub Appended : (l x : ℕ) → List ℕ → List ℕ → Pool → ℤ → Pool → Type 0
Appended l x is [] p r q = (r ≡ minus_one) × (q ≡ p)
Appended l x is (f ∷ fs) p r q =
    (r ≡ pos 0) × Changed l (is ++ f ∷ []) (items p is ++ some x ∷ []) fs (f ∷ is) p q

-- ListAppend of an item to a list that shares no node with the free ones ends with no fault. With no
-- free node it returns -1 and changes nothing; else it returns 0, the item is the last of the list
-- behind the old ones in order, the first free node is taken, and no other list or node changes.
pub append_total :
    (l x : ℕ) (p : Pool) (is fs : List ℕ)
    → Runs p l is
    → IsFree p fs
    → ((k : ℕ) → has k fs ≡ true → has k is ≡ false)
    → Ends (Appended l x is fs p) (list_append (some l) (some x) p)
append_total l x p is [] s free new = rw (append_full l x p free) (refl, refl)
append_total l x p is (f ∷ fs) s free new = append_lem l x f p is fs s free (new f (ground arith))
