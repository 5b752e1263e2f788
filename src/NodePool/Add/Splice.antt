-- ===== src/NodePool/Add/Splice.antt =====
-- A free node put between two neighbours of a list: what becomes of the pools.
use monitors_and_ipc.Prelude.{
  ℕ, suc, ◌<◌, ◌+◌, ◌≡◌, ◌∙◌, true, false, none, some, List, ◌∷◌, ◌++◌, length, All, ◌==◌, arith,
  refl, ==_refl, update, if◌then◌else◌, length-append,
}
use mathlib.Core.List.{map-append}
use monitors_and_ipc.NodePool.{Pool, max_nodes, LinkedList}
use monitors_and_ipc.NodePool.Links.{
  has, Distinct, Joined, Links, Links-frame, Links-append, Links-split, last, ne_of_other,
  ne_of_has, has-last, last-append, Distinct-insert, Distinct-append, has-append,
}
use monitors_and_ipc.NodePool.Shape.{
  Shape, IsLoose, items, IsFree, FreeFrom-frame, Changed, bounded_last, items-frame, All-append,
  All-split,
}

-- `p` with the free node `f` between the nodes `c` and `d`, holding `x`; the list `l` becomes `a`.
abbrev pub between : (l x f c d : ℕ) → LinkedList → Pool → Pool
between l x f c d a p = record p {
  free_node_head = (p.pool_nodes f).link;
  pool_nodes = λ k.
      if f == k
      then record { item = some x; next = some d; prev = some c; link = none }
      else if c == k
      then record (p.pool_nodes k) { next = some f }
      else if d == k
      then record (p.pool_nodes k) { prev = some f }
      else p.pool_nodes k;
  pool_lists = update p.pool_lists l a;
}

-- The list runs through `i` and `js`, and then through `d` and `ks`; `f` is free.
module _ (l x f : ℕ) (p : Pool) (i : ℕ) (js : List ℕ) (d : ℕ) (ks fs : List ℕ)
    (s : Shape p l i (js ++ d ∷ ks)) (free : IsFree p (f ∷ fs))
    (new : has f (i ∷ js ++ d ∷ ks) ≡ false) where
  abbrev c : ℕ
  c = last i js

  abbrev pub longer : LinkedList
  longer = record (p.pool_lists l) { count = suc (length (js ++ d ∷ ks)) + 1 }

  parts :
      Distinct (i ∷ js)
      × Distinct (d ∷ ks)
      × ((k : ℕ) → has k (i ∷ js) ≡ true → has k (d ∷ ks) ≡ false)
  parts = Distinct-append (i ∷ js) (d ∷ ks) s.distinct

  runs : Links p.pool_nodes i js × (Joined p.pool_nodes c d) × Links p.pool_nodes d ks
  runs = Links-split p.pool_nodes i js d ks s.links

  new_front : has f (i ∷ js) ≡ false
  new_front = ground (arith, has-append f (i ∷ js) (d ∷ ks), new)

  new_back : has f (d ∷ ks) ≡ false
  new_back = ground (arith, has-append f (i ∷ js) (d ∷ ks), new)

  off_fc : (f == c) ≡ false
  off_fc = ne_of_other f c (i ∷ js) new_front (has-last i js)

  off_fd : (f == d) ≡ false
  off_fd = ground (arith, new_back)

  off_cd : (c == d) ≡ false
  off_cd = ground (arith, parts.2 c (has-last i js))

  bounds : All (λ k. k < max_nodes) (i ∷ js) × All (λ k. k < max_nodes) (d ∷ ks)
  bounds = All-split (λ k. k < max_nodes) (i ∷ js) (d ∷ ks) s.bounded

  small_c : c < max_nodes
  small_c = bounded_last i js bounds.0

  abbrev pub inserted : LinkedList
  inserted = record (p.pool_lists l) { curr = some f; count = suc (length (js ++ d ∷ ks)) + 1 }

  off_id : (i == d) ≡ false
  off_id = ground (arith, parts.2 i)

  -- What the equations of the calls need.
  pub facts :
      (c < max_nodes)
      × (d < max_nodes)
      × ((f == c) ≡ false)
      × ((f == d) ≡ false)
      × ((c == d) ≡ false)
      × ((i == d) ≡ false)
      × Joined p.pool_nodes c d
  facts = (small_c, bounds.1.0, off_fc, off_fd, off_cd, off_id, runs.1)

  -- The header of the list after the call, as far as the list's shape goes.
  module _ (a : LinkedList) (a_head : a.head ≡ some i) (a_tail : a.tail ≡ (p.pool_lists l).tail)
      (a_count : a.count ≡ suc (length (js ++ d ∷ ks)) + 1) where
    abbrev result : Pool
    result = between l x f c d a p

    front_apart : (k : ℕ) → has k (i ∷ js) ≡ true → ((f == k) ≡ false) × ((d == k) ≡ false)
    front_apart k h =
        (ground (arith, ne_of_has k f (i ∷ js) h new_front), ground (arith, parts.2 k h))

    back_apart : (k : ℕ) → has k (d ∷ ks) ≡ true → ((f == k) ≡ false) × ((c == k) ≡ false)
    back_apart k h = (
      ground (arith, ne_of_has k f (d ∷ ks) h new_back),
      ground (arith, ne_of_has k c (d ∷ ks) h (parts.2 c (has-last i js))),
    )

    front-Links : Links result.pool_nodes i js
    front-Links =
        Links-frame p.pool_nodes result.pool_nodes i js parts.0
          (λ k h n. ground (arith, front_apart k h)) (λ k h. ground (arith, front_apart k)) runs.0

    back-Links : Links result.pool_nodes f (d ∷ ks)
    back-Links = (
      (ground arith, ground (arith, off_cd, off_fd)),
      Links-frame p.pool_nodes result.pool_nodes d ks parts.1
          (λ k h n. ground (arith, back_apart k h))
          (λ k h. ground (arith, back_apart k, ne_of_has k d ks h parts.1.0)) runs.2,
    )

    result-Links : Links result.pool_nodes i (js ++ f ∷ d ∷ ks)
    result-Links =
        Links-append result.pool_nodes i js f (d ∷ ks) front-Links
          (ground (arith, off_fc), ground arith) back-Links

    result_free : IsFree result fs
    result_free =
        FreeFrom-frame p.pool_nodes result.pool_nodes (p.pool_nodes f).link fs
          (λ k h. ground (arith, ne_of_has k f fs h free.2)) free.3

    result-items :
        items result (i ∷ js ++ f ∷ d ∷ ks) ≡ items p (i ∷ js) ++ some x ∷ items p (d ∷ ks)
    result-items =
        map-append (λ k. (result.pool_nodes k).item) (i ∷ js) (f ∷ d ∷ ks)
        ∙ cc (
          items-frame p result (i ∷ js) (λ k h. ground (arith, front_apart k h)),
          items-frame p result (d ∷ ks) (λ k h. ground (arith, back_apart k h)),
          ==_refl f,
        )

    result_back : IsLoose (last d ks) (result.pool_nodes (last d ks)).next
    result_back =
        let old : IsLoose (last d ks) (p.pool_nodes (last d ks)).next = rw last-append at s.back in
        ground (arith, old, back_apart (last d ks) (has-last d ks))

    pub between-Changed :
        Changed l
          (i ∷ js ++ f ∷ d ∷ ks)
          (items p (i ∷ js) ++ some x ∷ items p (d ∷ ks))
          fs
          (f ∷ i ∷ js ++ d ∷ ks)
          p
          result
    between-Changed = record {
      runs = record {
        head = ground arith;
        tail = ground (arith, s.tail, last-append i js f (d ∷ ks), last-append i js d ks);
        count = ground (arith, length-append js (f ∷ d ∷ ks), length-append js (d ∷ ks));
        links = result-Links;
        distinct = Distinct-insert (i ∷ js) f (d ∷ ks) s.distinct new;
        bounded = All-append (λ k. k < max_nodes) (i ∷ js) (f ∷ d ∷ ks) bounds.0 (free.1, bounds.1);
        front = ground (arith, s.front, front_apart i);
        back = rw last-append result_back;
      };
      items_are = result-items;
      free = result_free;
      within = record {
        nodes = λ k h.
            ground (arith, has-append k (i ∷ js) (d ∷ ks), ne_of_other k c (i ∷ js), has-last i js);
        lists = λ m h. ground arith;
        free_lists = refl;
        ready = refl;
      };
    }
