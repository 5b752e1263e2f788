-- ===== src/NodePool/Move/Search.antt =====
-- ListSearch from the cursor on, over lists whose last node has no `next` or is its own.
use monitors_and_ipc.Prelude.{
  ℕ, zero, suc, ◌<◌, ◌+◌, ◌≡◌, inl, inr, false, Option, none, some, List, [], ◌∷◌, map, length, All,
  arith, refl, lt→ltb, if◌then◌else◌, Bool-cases,
}
use monitors_and_ipc.NodePool.{Pool, out_of_fuel, max_nodes}
use monitors_and_ipc.NodePool.Links.{Links, last}
use monitors_and_ipc.NodePool.Shape.{Ends, items}
use monitors_and_ipc.NodePool.Move.{Comparator, is_one, list_curr, search_loop, list_search}
use monitors_and_ipc.NodePool.Move.Walk.{list_next_to, list_next_end, at_node}

module _ (comparator : Comparator) (arg : ℕ) where
  -- The first item that the comparator answers with 1.
  unfoldable pub find_first : List ℕ → Option ℕ
  find_first [] = none
  find_first (x ∷ xs) = if is_one (comparator x arg) then some x else find_first xs

  loop_finds :
      (fuel l i : ℕ) (js : List ℕ) (x : ℕ) (xs : List ℕ) (p : Pool)
      → (p.pool_lists l).curr ≡ some i
      → (p.pool_lists l).after ≡ false
      → Links p.pool_nodes i js
      → All (λ k. k < max_nodes) (i ∷ js)
      → (p.pool_nodes (last i js)).next ≡ none
      → items p js ≡ map some xs
      → length js + 1 < fuel
      → Ends
          (λ r q. (r ≡ find_first (x ∷ xs)) × (q.pool_nodes ≡ p.pool_nodes))
          (search_loop comparator arg fuel l (some x) p)
  unfolding search_loop find_first
  loop_finds zero l i js x xs p on flag run small back held fuel = absurd (omega arith)
  loop_finds (suc zero) l i js x xs p on flag run small back held fuel = absurd (omega arith)
  loop_finds (suc (suc fuel)) l i [] x (y ∷ ys) p on flag run small back held enough = cc
  loop_finds (suc (suc fuel)) l i [] x [] p on flag run small back held enough =
      elim (Bool-cases (is_one (comparator x arg))) [
        | inl hit ↦ rw hit (refl, refl)
        | inr miss ↦ rw (miss, list_next_end l i p on small.0 flag back) (refl, refl)
      ]
  loop_finds (suc (suc fuel)) l i (j ∷ js) x [] p on flag run small back held enough = cc
  loop_finds (suc (suc fuel)) l i (j ∷ js) x (y ∷ ys) p on flag run small back held enough =
      let e : (p.pool_nodes j).item ≡ some y = ground arith in
      elim (Bool-cases (is_one (comparator x arg))) [
        | inl hit ↦ rw hit (refl, refl)
        | inr miss ↦
            rw (miss, list_next_to l i p on small.0 j flag run.0.0 small.1.0, e)
              (loop_finds (suc fuel) l j js y ys (at_node l j p) (ground arith)
                (ground (arith, flag)) run.1 small.1 back (ground arith) (omega arith))
      ]

  -- A last node that is linked to itself.
  loop_hangs :
      (fuel l i x : ℕ) (p : Pool)
      → (p.pool_lists l).curr ≡ some i
      → (p.pool_lists l).after ≡ false
      → (p.pool_nodes i).next ≡ some i
      → (p.pool_nodes i).item ≡ some x
      → i < max_nodes
      → is_one (comparator x arg) ≡ false
      → search_loop comparator arg fuel l (some x) p ≡ out_of_fuel
  unfolding search_loop
  loop_hangs zero l i x p on flag loop held small miss = refl
  loop_hangs (suc fuel) l i x p on flag loop held small miss =
      rw (miss, list_next_to l i p on small i flag loop small, held)
        (loop_hangs fuel l i x (at_node l i p) (ground arith) (ground (arith, flag)) loop held small
          miss)

  run_hangs :
      (fuel l i : ℕ) (js : List ℕ) (x : ℕ) (xs : List ℕ) (p : Pool)
      → (p.pool_lists l).curr ≡ some i
      → (p.pool_lists l).after ≡ false
      → Links p.pool_nodes i js
      → All (λ k. k < max_nodes) (i ∷ js)
      → (p.pool_nodes (last i js)).next ≡ some (last i js)
      → (p.pool_nodes i).item ≡ some x
      → items p js ≡ map some xs
      → find_first (x ∷ xs) ≡ none
      → search_loop comparator arg fuel l (some x) p ≡ out_of_fuel
  unfolding search_loop find_first
  run_hangs zero l i js x xs p on flag run small back first held miss = refl
  run_hangs (suc fuel) l i [] x xs p on flag run small back first held miss =
      loop_hangs (suc fuel) l i x p on flag back first small.0 (ground arith)
  run_hangs (suc fuel) l i (j ∷ js) x [] p on flag run small back first held miss = cc
  run_hangs (suc fuel) l i (j ∷ js) x (y ∷ ys) p on flag run small back first held miss =
      let e : (p.pool_nodes j).item ≡ some y = ground arith in
      let no_hit : is_one (comparator x arg) ≡ false = ground arith in
      rw (no_hit, list_next_to l i p on small.0 j flag run.0.0 small.1.0, e)
        (run_hangs fuel l j js y ys (at_node l j p) (ground arith) (ground (arith, flag)) run.1
          small.1 back e (ground arith) (ground arith))

-- The list runs through `i` and `js`, and from the node `d` on through `ks`, whose items are `x` and
-- `xs`. The cursor is on `d`.
module _ (comparator : Comparator) (arg l : ℕ) (p : Pool) (d : ℕ) (ks : List ℕ) (x : ℕ)
    (xs : List ℕ) (run : Links p.pool_nodes d ks) (small : All (λ k. k < max_nodes) (d ∷ ks))
    (held : items p (d ∷ ks) ≡ map some (x ∷ xs)) (on : (p.pool_lists l).curr ≡ some d)
    (not_after : (p.pool_lists l).after ≡ false)
    (not_before : (p.pool_lists l).before ≡ false) where
  search_eq :
      (fuel : ℕ)
      → list_search fuel (some l) (some comparator) arg p
        ≡ search_loop comparator arg fuel l (some x) p
  unfolding list_search list_curr
  search_eq fuel = simp (
    on,
    not_before,
    lt→ltb d max_nodes small.0,
    (let e : (p.pool_nodes d).item ≡ some x = ground arith in e),
  )

  -- When the last node of the list has no `next`, and the fuel is more than one above the number
  -- of nodes after the cursor, ListSearch with the cursor on a node that holds an item comes to an
  -- end with no fault: it returns the first item, from the cursor on, that the comparator answers
  -- with 1, else NULL, and changes no node.
  pub search_finds :
      (fuel : ℕ)
      → (p.pool_nodes (last d ks)).next ≡ none
      → length ks + 1 < fuel
      → Ends
          (λ r q. (r ≡ find_first comparator arg (x ∷ xs)) × (q.pool_nodes ≡ p.pool_nodes))
          (list_search fuel (some l) (some comparator) arg p)
  search_finds fuel back enough = rw (search_eq fuel) (
      loop_finds comparator arg fuel l d ks x xs p on not_after run small back (ground arith)
        enough)

  -- When the last node is its own `next`, as after ListPrepend on an empty list, and the
  -- comparator answers no item from the cursor on with 1, ListSearch runs out of any fuel: it does
  -- not come to an end.
  pub search_hangs :
      (fuel : ℕ)
      → (p.pool_nodes (last d ks)).next ≡ some (last d ks)
      → find_first comparator arg (x ∷ xs) ≡ none
      → list_search fuel (some l) (some comparator) arg p ≡ out_of_fuel
  search_hangs fuel back miss = rw (search_eq fuel) (
      run_hangs comparator arg fuel l d ks x xs p on not_after run small back (ground arith)
        (ground arith) miss)
