-- ===== src/NodePool/Shape.antt =====
-- When the pools hold a list: the nodes that a LIST runs through, their items, and the free nodes.
use monitors_and_ipc.Prelude.{
  ℕ, suc, ◌<◌, ◌≡◌, ◌⊎◌, true, false, none, some, List, [], ◌∷◌, ◌++◌, map, length, All, ◌==◌,
  arith, refl,
}
use monitors_and_ipc.NodePool.{
  Index, Item, Pool, Run, Cmd, and_then, done, fault, out_of_fuel, max_nodes,
}
use monitors_and_ipc.NodePool.Links.{Nodes, has, Distinct, Links, last}

-- A run that comes to an end, with no fault, in a result and a pool as `P` says.
abbrev pub Ends : {A : Type 0} → (A → Pool → Type 0) → Run A → Type 0
Ends P (done a p) = P a p
Ends P fault = ⊥
Ends P out_of_fuel = ⊥

-- An end of a list is marked by -1, or by a node's own index: ListAppend and ListPrepend link the
-- first node of an empty list to itself.
abbrev pub IsLoose : ℕ → Index → Type 0
IsLoose i j = (j ≡ none) ⊎ (j ≡ some i)

-- The list `l` runs through the node `i` and then the nodes `js`.
pub record Shape (p : Pool) (l i : ℕ) (js : List ℕ) : Type 0 where
  pub head : (p.pool_lists l).head ≡ some i
  pub tail : (p.pool_lists l).tail ≡ some (last i js)
  pub count : (p.pool_lists l).count ≡ suc (length js)
  pub links : Links p.pool_nodes i js
  pub distinct : Distinct (i ∷ js)
  pub bounded : All (λ k. k < max_nodes) (i ∷ js)
  pub front : IsLoose i (p.pool_nodes i).prev
  pub back : IsLoose (last i js) (p.pool_nodes (last i js)).next

-- The list `l` runs through the nodes `is`. An empty list is one of count 0: its other fields may
-- be stale.
abbrev pub Runs : Pool → ℕ → List ℕ → Type 0
Runs p l [] = (p.pool_lists l).count ≡ 0
Runs p l (i ∷ js) = Shape p l i js

-- The items of the nodes `is`.
abbrev pub items : Pool → List ℕ → List Item
items p = map λ k. (p.pool_nodes k).item

-- From `f` on the free list runs through the nodes `ks`.
abbrev pub FreeFrom : Nodes → Index → List ℕ → Type 0
FreeFrom h f [] = f ≡ none
FreeFrom h f (k ∷ ks) =
    (f ≡ some k) × (k < max_nodes) × (has k ks ≡ false) × FreeFrom h (h k).link ks

abbrev pub IsFree : Pool → List ℕ → Type 0
IsFree p ks = FreeFrom p.pool_nodes p.free_node_head ks

-- `q` differs from `p` at most in the nodes `ks`, the list `l` and the head of the free nodes.
pub record Within (ks : List ℕ) (l : ℕ) (p q : Pool) : Type 0 where
  pub nodes : (k : ℕ) → has k ks ≡ false → q.pool_nodes k ≡ p.pool_nodes k
  pub lists : (m : ℕ) → (m == l) ≡ false → q.pool_lists m ≡ p.pool_lists m
  pub free_lists : q.free_list_head ≡ p.free_list_head
  pub ready : q.initialized ≡ p.initialized

-- After a call: the list `l` runs through the nodes `is` with the items `xs`, the free nodes are
-- `fs`, and nothing changed outside the nodes `ks`, the list and the head of the free nodes.
pub record Changed (l : ℕ) (is : List ℕ) (xs : List Item) (fs ks : List ℕ) (p q : Pool)
    : Type 0 where
  pub runs : Runs q l is
  pub items_are : items q is ≡ xs
  pub free : IsFree q fs
  pub within : Within ks l p q

pub FreeFrom-frame :
    (h g : Nodes) (f : Index) (ks : List ℕ)
    → ((k : ℕ) → has k ks ≡ true → (g k).link ≡ (h k).link)
    → FreeFrom h f ks
    → FreeFrom g f ks
FreeFrom-frame h g f [] same a = a
FreeFrom-frame h g f (k ∷ ks) same a = (
  a.0,
  a.1,
  a.2,
  FreeFrom-frame h g (g k).link ks (λ m e. same m (ground arith))
      (rw (same k (ground arith)) (a.3)),
)

pub bounded_last : (i : ℕ) (js : List ℕ) → All (λ k. k < max_nodes) (i ∷ js) → last i js < max_nodes
bounded_last i [] b = b.0
bounded_last i (j ∷ js) b = bounded_last j js b.1

pub All-append {ℓ κ} :
    {A : Type ℓ} (P : A → Type κ) (xs ys : List A) → All P xs → All P ys → All P (xs ++ ys)
All-append P [] ys a b = b
All-append P (x ∷ xs) ys a b = (a.0, All-append P xs ys a.1 b)

pub All-split {ℓ κ} :
    {A : Type ℓ} (P : A → Type κ) (xs ys : List A) → All P (xs ++ ys) → All P xs × All P ys
All-split P [] ys a = (tt, a)
All-split P (x ∷ xs) ys a = let r = All-split P xs ys a.1 in ((a.0, r.0), r.1)

pub items-frame :
    (p q : Pool) (ks : List ℕ)
    → ((k : ℕ) → has k ks ≡ true → (q.pool_nodes k).item ≡ (p.pool_nodes k).item)
    → items q ks ≡ items p ks
items-frame p q [] same = refl
items-frame p q (k ∷ ks) same =
    cc (same k (ground arith), items-frame p q ks (λ m e. same m (ground arith)))

-- Runs that end alike, when their pools agree field by field and entry by entry.
pub done-eq :
    {A : Type 0} (a : A) (p q : Pool)
    → p.initialized ≡ q.initialized
    → p.free_list_head ≡ q.free_list_head
    → p.free_node_head ≡ q.free_node_head
    → ((l : ℕ) → p.pool_lists l ≡ q.pool_lists l)
    → ((k : ℕ) → p.pool_nodes k ≡ q.pool_nodes k)
    → done a p ≡ done a q
done-eq a p q b c d e f = λ i. done a (record {
  initialized = b i;
  free_list_head = c i;
  free_node_head = d i;
  pool_lists = λ l. e l i;
  pool_nodes = λ k. f k i;
})

pub Ends-bind :
    {A B : Type 0} (P : A → Pool → Type 0) (Q : B → Pool → Type 0) (r : Run A) (k : A → Cmd B)
    → Ends P r
    → ((a : A) (p : Pool) → P a p → Ends Q (k a p))
    → Ends Q (and_then r k)
Ends-bind P Q (done a p) k h next = next a p h
Ends-bind P Q fault k h next = h
Ends-bind P Q out_of_fuel k h next = h

pub Ends-mono :
    {A : Type 0} (P Q : A → Pool → Type 0) (r : Run A)
    → Ends P r
    → ((a : A) (p : Pool) → P a p → Q a p)
    → Ends Q r
Ends-mono P Q (done a p) h weaken = weaken a p h
Ends-mono P Q fault h weaken = h
Ends-mono P Q out_of_fuel h weaken = h

pub Ends-eq :
    {A : Type 0} (P : A → Pool → Type 0) {r : Run A} {a : A} {p : Pool}
    → r ≡ done a p
    → P a p
    → Ends P r
Ends-eq P e h = rw e h
