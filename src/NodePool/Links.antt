-- ===== src/NodePool/Links.antt =====
-- Runs of nodes joined by `next` and `prev`.
use monitors_and_ipc.Prelude.{
  ℕ, ◌≡◌, refl, Bool, true, false, ◌||◌, some, List, [], ◌∷◌, ◌++◌, ◌∙◌, ◌==◌, arith,
}
use monitors_and_ipc.NodePool.{Node}

abbrev pub Nodes : Type 0
Nodes = ℕ → Node

abbrev pub has : ℕ → List ℕ → Bool
has k [] = false
has k (i ∷ is) = (k == i) || has k is

abbrev pub Distinct : List ℕ → Type 0
Distinct [] = Unit
Distinct (i ∷ is) = (has i is ≡ false) × Distinct is

-- `i` and `j` are neighbours.
abbrev pub Joined : Nodes → ℕ → ℕ → Type 0
Joined h i j = ((h i).next ≡ some j) × ((h j).prev ≡ some i)

-- From `i` on, neighbour by neighbour, through `js`.
abbrev pub Links : Nodes → ℕ → List ℕ → Type 0
Links h i [] = Unit
Links h i (j ∷ js) = Joined h i j × Links h j js

abbrev pub last : ℕ → List ℕ → ℕ
last i [] = i
last i (j ∷ js) = last j js

pub last-append : (i : ℕ) (js : List ℕ) (k : ℕ) (ks : List ℕ) → last i (js ++ k ∷ ks) ≡ last k ks
last-append i [] k ks = refl
last-append i (j ∷ js) k ks = last-append j js k ks

pub has-append : (k : ℕ) (is js : List ℕ) → has k (is ++ js) ≡ (has k is || has k js)
has-append k [] js = refl
has-append k (i ∷ is) js = ground (arith, has-append k is js)

pub has-last : (i : ℕ) (js : List ℕ) → has (last i js) (i ∷ js) ≡ true
has-last i [] = ground arith
has-last i (j ∷ js) = ground (arith, has-last j js)

pub ne_of_has : (k m : ℕ) (is : List ℕ) → has k is ≡ true → has m is ≡ false → (k == m) ≡ false
ne_of_has k m [] h n = ground arith
ne_of_has k m (i ∷ is) h n = ground (arith, ne_of_has k m is)

pub ne_of_other : (k m : ℕ) (is : List ℕ) → has k is ≡ false → has m is ≡ true → (k == m) ≡ false
ne_of_other k m is n h = ground (arith, ne_of_has m k is h n)

-- The runs and their joint make the whole.
pub Links-append :
    (h : Nodes) (i : ℕ) (js : List ℕ) (k : ℕ) (ks : List ℕ)
    → Links h i js
    → Joined h (last i js) k
    → Links h k ks
    → Links h i (js ++ k ∷ ks)
Links-append h i [] k ks a b c = (b, c)
Links-append h i (j ∷ js) k ks a b c = (a.0, Links-append h j js k ks a.1 b c)

pub Links-split :
    (h : Nodes) (i : ℕ) (js : List ℕ) (k : ℕ) (ks : List ℕ)
    → Links h i (js ++ k ∷ ks)
    → Links h i js × (Joined h (last i js) k) × Links h k ks
Links-split h i [] k ks a = (tt, a.0, a.1)
Links-split h i (j ∷ js) k ks a = let r = Links-split h j js k ks a.1 in ((a.0, r.0), r.1, r.2)

-- A run stands when `next` is kept but at its last node, and `prev` but at its first.
pub Links-frame :
    (h g : Nodes) (i : ℕ) (js : List ℕ)
    → Distinct (i ∷ js)
    → ((k : ℕ) → has k (i ∷ js) ≡ true → (k == last i js) ≡ false → (g k).next ≡ (h k).next)
    → ((k : ℕ) → has k js ≡ true → (g k).prev ≡ (h k).prev)
    → Links h i js
    → Links g i js
Links-frame h g i [] d nexts prevs a = tt
Links-frame h g i (j ∷ js) d nexts prevs a = (
  (
    nexts i (ground arith) (ne_of_other i (last j js) (j ∷ js) d.0 (has-last j js)) ∙ a.0.0,
    prevs j (ground arith) ∙ a.0.1,
  ),
  Links-frame h g j js d.1 (λ k e. nexts k (ground arith)) (λ k e. prevs k (ground arith)) a.1,
)

pub Distinct-insert :
    (is : List ℕ) (k : ℕ) (js : List ℕ)
    → Distinct (is ++ js)
    → has k (is ++ js) ≡ false
    → Distinct (is ++ k ∷ js)
Distinct-insert [] k js d n = (n, d)
Distinct-insert (i ∷ is) k js d n = (
  ground (arith, has-append i is js, has-append i is (k ∷ js)),
  Distinct-insert is k js d.1 (ground arith),
)

pub Distinct-remove :
    (is : List ℕ) (k : ℕ) (js : List ℕ)
    → Distinct (is ++ k ∷ js)
    → Distinct (is ++ js) × (has k (is ++ js) ≡ false)
Distinct-remove [] k js d = (d.1, d.0)
Distinct-remove (i ∷ is) k js d =
    let r = Distinct-remove is k js d.1 in
    (
      (ground (arith, d.0, has-append i is js, has-append i is (k ∷ js)), r.0),
      ground (arith, d.0, r.1, has-append i is (k ∷ js)),
    )

-- What two parts of a list without repetition share: nothing.
pub Distinct-append :
    (is js : List ℕ)
    → Distinct (is ++ js)
    → Distinct is × Distinct js × ((k : ℕ) → has k is ≡ true → has k js ≡ false)
Distinct-append [] js d = (tt, d, λ k h. cc)
Distinct-append (i ∷ is) js d =
    let r = Distinct-append is js d.1 in
    (
      (ground (arith, d.0, has-append i is js), r.0),
      r.1,
      λ k h. ground (arith, d.0, r.2 k, has-append i is js),
    )

pub Distinct-join :
    (is js : List ℕ)
    → Distinct is
    → Distinct js
    → ((k : ℕ) → has k is ≡ true → has k js ≡ false)
    → Distinct (is ++ js)
Distinct-join [] js d e apart = e
Distinct-join (i ∷ is) js d e apart = (
  ground (arith, d.0, apart i, has-append i is js),
  Distinct-join is js d.1 e (λ k h. apart k (ground arith)),
)
