-- ===== src/NodePool/Tests/Samples.antt =====
-- Pools to run the list library on: list 0 runs through the nodes 5, 6 and 7, list 1 through 3 and 4,
-- list 3 through 2, and the nodes 8 and 9 are free.
use monitors_and_ipc.Prelude.{
  ℕ, ◌≡◌, ◌+◌, List, Bool-cases, refl, inl, inr, true, false, none, some, [], ◌∷◌, ◌==◌,
  if◌then◌else◌, arith,
}
use monitors_and_ipc.NodePool.Queues.Hold.{Holds}
use monitors_and_ipc.NodePool.{Index, Node, LinkedList, Pool}
use monitors_and_ipc.NodePool.Links.{has}
use monitors_and_ipc.NodePool.Shape.{Shape, IsLoose, IsFree}

abbrev pub sample_nodes : (front back : Index) → ℕ → Node
sample_nodes front back k =
    if k == 5
    then record { item = some 10; next = some 6; prev = front; link = none }
    else if k == 6
    then record { item = some 20; next = some 7; prev = some 5; link = none }
    else if k == 7
    then record { item = some 30; next = back; prev = some 6; link = none }
    else if k == 3
    then record { item = some 40; next = some 4; prev = none; link = none }
    else if k == 4
    then record { item = some 50; next = none; prev = some 3; link = none }
    else if k == 2
    then record { item = some 60; next = some 2; prev = some 2; link = none }
    else if k == 8
    then record { item = none; next = none; prev = none; link = some 9 }
    else record { item = none; next = none; prev = none; link = none }

abbrev pub listed : (head tail curr : Index) → ℕ → LinkedList
listed head tail curr count = record {
  head = head;
  tail = tail;
  curr = curr;
  count = count;
  before = false;
  after = false;
  link = none;
}

abbrev pub sample_lists : Index → ℕ → LinkedList
sample_lists curr l =
    if l == 0
    then listed (some 5) (some 7) curr 3
    else if l == 1
    then listed (some 3) (some 4) (some 3) 2
    else if l == 3
    then listed (some 2) (some 2) (some 2) 1
    else listed none none none 0

-- The first node's `prev`, the cursor and the last node's `next` of list 0.
abbrev pub sample : (front curr back : Index) → Pool
sample front curr back = record {
  initialized = true;
  free_list_head = some 10;
  free_node_head = some 8;
  pool_lists = sample_lists curr;
  pool_nodes = sample_nodes front back;
}

-- No list has a node.
abbrev pub full : Pool
full = record (sample none none none) { free_list_head = none; free_node_head = none }

pub sample-Shape :
    (front curr back : Index)
    → IsLoose 5 front
    → IsLoose 7 back
    → Shape (sample front curr back) 0 5 (6 ∷ 7 ∷ [])
sample-Shape front curr back a b = record {
  head = refl;
  tail = refl;
  count = refl;
  links = ((refl, refl), ((refl, refl), tt));
  distinct = (refl, (refl, (refl, tt)));
  bounded = (omega arith, (omega arith, (omega arith, tt)));
  front = a;
  back = b;
}

pub second-Shape : (front curr back : Index) → Shape (sample front curr back) 1 3 (4 ∷ [])
second-Shape front curr back = record {
  head = refl;
  tail = refl;
  count = refl;
  links = ((refl, refl), tt);
  distinct = (refl, (refl, tt));
  bounded = (omega arith, (omega arith, tt));
  front = inl refl;
  back = inl refl;
}

pub single-Shape : (front curr back : Index) → Shape (sample front curr back) 3 2 []
single-Shape front curr back = record {
  head = refl;
  tail = refl;
  count = refl;
  links = tt;
  distinct = (refl, tt);
  bounded = (omega arith, tt);
  front = inr refl;
  back = inr refl;
}

pub sample_free : (front curr back : Index) → IsFree (sample front curr back) (8 ∷ 9 ∷ [])
sample_free front curr back = (refl, omega arith, refl, (refl, omega arith, refl, refl))

pub apart_free : (k : ℕ) → has k (5 ∷ 6 ∷ 7 ∷ []) ≡ true → has k (8 ∷ 9 ∷ []) ≡ false
apart_free k h = ground arith

pub apart_second : (k : ℕ) → has k (5 ∷ 6 ∷ 7 ∷ []) ≡ true → has k (3 ∷ 4 ∷ []) ≡ false
apart_second k h = ground arith

-- Queue `busy` holds the process 60, in list 3; the other queues are empty.
abbrev pub places : ℕ → ℕ → ℕ
places busy a = if a == busy then 3 else a + 10

abbrev pub nodes : ℕ → ℕ → List ℕ
nodes busy a = if a == busy then 2 ∷ [] else []

abbrev pub crowd : ℕ → ℕ → List ℕ
crowd busy a = if a == busy then 60 ∷ [] else []

abbrev pub pool : Pool
pool = sample none none none

pub holds : (busy : ℕ) → Holds 3 (places busy) pool (nodes busy) (8 ∷ 9 ∷ []) (crowd busy)
holds busy = record {
  runs = λ a lt. elim (Bool-cases (a == busy)) [
    | inl e ↦ rw e (single-Shape none none none)
    | inr e ↦ rw e (ground arith)
  ];
  held = λ a lt. elim (Bool-cases (a == busy)) [ inl e ↦ rw e refl | inr e ↦ rw e refl ];
  lists = λ a b la lb off. ground arith;
  apart = λ a b la lb off k h. ground arith;
  free = sample_free none none none;
  spare = λ a lt k h. ground arith;
}
