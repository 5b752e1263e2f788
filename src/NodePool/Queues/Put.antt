-- ===== src/NodePool/Queues/Put.antt =====
-- ListAppend on one of several queues.
use monitors_and_ipc.Prelude.{
  ℕ, ◌<◌, ◌≡◌, true, false, some, List, [], ◌∷◌, ◌++◌, arith, ◌==◌, ◌∙◌, pos, update, Bool-cases,
  inl, inr,
}
use mathlib.Core.List.{map-append}
use monitors_and_ipc.NodePool.{Pool}
use monitors_and_ipc.NodePool.Links.{has, has-append, ne_of_has}
use monitors_and_ipc.NodePool.Shape.{items, Ends, Ends-mono, Changed}
use monitors_and_ipc.NodePool.Add.{list_append}
use monitors_and_ipc.NodePool.Add.Append.{append_lem}
use monitors_and_ipc.NodePool.Queues.Hold.{Holds, Holds-update}

module _ (n : ℕ) (idx : ℕ → ℕ) (p : Pool) (ns : ℕ → List ℕ) (f : ℕ) (fs : List ℕ) (xs : ℕ → List ℕ)
    (h : Holds n idx p ns (f ∷ fs) xs) (a : ℕ) (below : a < n) (x : ℕ) where
  new : (b : ℕ) → b < n → has f (ns b) ≡ false
  new b lt = elim (Bool-cases (has f (ns b))) [
    | inl e ↦ ground (arith, h.spare b lt f e)
    | inr e ↦ e
  ]

  clash : (b : ℕ) → b < n → (k : ℕ) → has k (ns b) ≡ true → (k == f) ≡ false
  clash b lt k e = ne_of_has k f (ns b) e (new b lt)

  put_Holds :
      (q : Pool)
      → Changed (idx a) (ns a ++ f ∷ []) (items p (ns a) ++ some x ∷ []) fs (f ∷ ns a) p q
      → Holds n idx q (update ns a (ns a ++ f ∷ [])) fs (update xs a (xs a ++ x ∷ []))
  put_Holds q c =
      Holds-update n idx p q ns (f ∷ fs) xs h a below (ns a ++ f ∷ []) (xs a ++ x ∷ []) fs
        (f ∷ ns a)
        (record {
          runs = c.runs;
          items_are = c.items_are ∙ (rw (map-append some (xs a) (x ∷ []), h.held a below));
          free = c.free;
          within = c.within;
        })
        (λ b lt off k e. (
          ground (arith, h.apart b a lt below (ground (arith, off)) k e, clash b lt k e),
          ground (
            arith,
            h.apart b a lt below (ground (arith, off)) k e,
            clash b lt k e,
            has-append k (ns a) (f ∷ []),
          ),
          ground (arith, h.spare b lt k e),
        ))
        (λ k e. elim (Bool-cases (has k (ns a))) [
          | inl m ↦ ground (arith, h.spare a below k m)
          | inr m ↦ ground (arith, has-append k (ns a) (f ∷ []), h.free.2)
        ])

  -- ListAppend on one of several disjoint queues in the pools, with a free node, returns 0 and
  -- puts the item at the end of that queue; every other queue is as before.
  pub put_lem :
      Ends
        (λ r q.
          (r ≡ pos 0)
          × Holds n idx q (update ns a (ns a ++ f ∷ [])) fs (update xs a (xs a ++ x ∷ [])))
        (list_append (some (idx a)) (some x) p)
  put_lem =
      Ends-mono _
        (λ r q.
          (r ≡ pos 0)
          × Holds n idx q (update ns a (ns a ++ f ∷ [])) fs (update xs a (xs a ++ x ∷ [])))
        _ (append_lem (idx a) x f p (ns a) fs (h.runs a below) h.free (new a below))
        λ r q e. (e.0, put_Holds q e.1)
