-- ===== src/NodePool/Remove/Trim.antt =====
-- ListTrim with the cursor on a node before the last one.
use monitors_and_ipc.Prelude.{
  ℕ, ◌≡◌, true, false, none, some, List, [], ◌∷◌, ◌++◌, ◌==◌, arith, update,
}
use monitors_and_ipc.NodePool.{Index, Item, Pool, Cmd, and_then, pure, ◌>>◌, change_list}
use monitors_and_ipc.NodePool.Links.{has, last, last-append}
use monitors_and_ipc.NodePool.Shape.{Shape, Ends, Ends-bind, items, IsFree, Changed}
use monitors_and_ipc.NodePool.Move.Walk.{stood, stood-Shape, list_last_to}
use monitors_and_ipc.NodePool.Remove.{list_remove, list_trim}
use monitors_and_ipc.NodePool.Remove.AtLast.{remove_last}

-- `p` with the cursor of `l` put at `c`, flags aside.
abbrev pointed : ℕ → Index → Pool → Pool
pointed l c p = record p {
  pool_lists = update p.pool_lists l (record (p.pool_lists l) { curr = c });
}

pointed-Shape :
    (p : Pool) (l i : ℕ) (js : List ℕ) (c : Index) → Shape p l i js → Shape (pointed l c p) l i js
pointed-Shape p l i js c s = record {
  head = ground (arith, s.head);
  tail = ground (arith, s.tail);
  count = ground (arith, s.count);
  links = s.links;
  distinct = s.distinct;
  bounded = s.bounded;
  front = s.front;
  back = s.back;
}

module _ (l : ℕ) (p : Pool) (i : ℕ) (js : List ℕ) (d e : ℕ) (fs : List ℕ)
    (s : Shape p l i (js ++ d ∷ [])) (free : IsFree p fs)
    (old : (k : ℕ) → has k (i ∷ js ++ d ∷ []) ≡ true → has k fs ≡ false)
    (marked : (p.pool_nodes d).next ≡ none) (on : (p.pool_lists l).curr ≡ some e)
    (elsewhere : (e == d) ≡ false) where
  tail_is : (p.pool_lists l).tail ≡ some d
  tail_is = rw (← last-append i js d []) s.tail

  abbrev moved : Pool
  moved = stood l (some (last i (js ++ d ∷ []))) p

  put_back : Item → Cmd Item
  put_back item = do change_list l λ r. record r { curr = some e }; pure item

  trim_eq : list_trim (some l) p ≡ and_then (list_remove (some l) moved) put_back
  unfolding list_trim put_back
  trim_eq = simp (s.count, on, tail_is, elsewhere, list_last_to l i (js ++ d ∷ []) p s)

  -- ListTrim, with the cursor on a node that is not the last, of a list of at least two nodes
  -- whose last has no `next`, returns the last item; the list keeps the other nodes and items, the
  -- cursor is where it was, the node comes first on the free list, and no other list or node
  -- changes.
  pub trim_last :
      Ends
        (λ x q.
          (x ≡ (p.pool_nodes d).item)
          × ((q.pool_lists l).curr ≡ some e)
          × Changed l (i ∷ js) (items p (i ∷ js)) (d ∷ fs) (i ∷ js ++ d ∷ []) p q)
        (list_trim (some l) p)
  unfolding put_back
  trim_last = rw trim_eq (
      Ends-bind _ _ (list_remove (some l) moved) put_back
        (remove_last l moved i js d fs (stood-Shape p l i (js ++ d ∷ []) _ s) free old marked
          (rw last-append (ground arith)) (ground arith) (ground arith))
        λ x q h. (
          h.0,
          ground arith,
          record {
            runs = pointed-Shape q l i js (some e) h.2.runs;
            items_are = h.2.items_are;
            free = h.2.free;
            within = record {
              nodes = h.2.within.nodes;
              lists = λ m off. ground (arith, h.2.within.lists m off);
              free_lists = h.2.within.free_lists;
              ready = h.2.within.ready;
            };
          },
        ))
