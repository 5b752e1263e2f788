-- ===== src/NodePool/Queues/Hold.antt =====
-- The pools hold the queues below `n`: queue `a` is the list `idx a`, with the nodes `ns a` and the
-- items `xs a`; the free nodes are `fs`.
use monitors_and_ipc.Prelude.{
  ℕ, ◌<◌, ◌≡◌, true, false, Bool, some, List, [], ◌∷◌, map, arith, refl, ◌==◌, ◌∙◌, update,
  Bool-cases, inl, inr, subst,
}
use monitors_and_ipc.NodePool.{Pool}
use monitors_and_ipc.NodePool.Links.{has, last, Links-frame, has-last}
use monitors_and_ipc.NodePool.Shape.{items, IsFree, Runs, Within, Changed, items-frame}

pub record Holds (n : ℕ) (idx : ℕ → ℕ) (p : Pool) (ns : ℕ → List ℕ) (fs : List ℕ) (xs : ℕ → List ℕ)
    : Type 0 where
  pub runs : (a : ℕ) → a < n → Runs p (idx a) (ns a)
  pub held : (a : ℕ) → a < n → items p (ns a) ≡ map some (xs a)
  pub lists : (a b : ℕ) → a < n → b < n → (a == b) ≡ false → (idx a == idx b) ≡ false
  pub apart :
      (a b : ℕ)
      → a < n
      → b < n
      → (a == b) ≡ false
      → (k : ℕ) → has k (ns a) ≡ true
      → has k (ns b) ≡ false
  pub free : IsFree p fs
  pub spare : (a : ℕ) → a < n → (k : ℕ) → has k (ns a) ≡ true → has k fs ≡ false

module _ (p q : Pool) (ks : List ℕ) (l : ℕ) (w : Within ks l p q) where
  -- A list whose nodes are not among those that changed.
  pub Runs-frame :
      (m : ℕ) (is : List ℕ)
      → (m == l) ≡ false
      → ((k : ℕ) → has k is ≡ true → has k ks ≡ false)
      → Runs p m is
      → Runs q m is
  Runs-frame m [] off out r = ground (arith, w.lists m off)
  Runs-frame m (i ∷ js) off out r = record {
    head = ground (arith, w.lists m off, r.head);
    tail = ground (arith, w.lists m off, r.tail);
    count = ground (arith, w.lists m off, r.count);
    links =
        Links-frame p.pool_nodes q.pool_nodes i js r.distinct
          (λ k h e. ground (arith, w.nodes k (out k h)))
          (λ k h. ground (arith, w.nodes k (out k (ground arith)))) r.links;
    distinct = r.distinct;
    bounded = r.bounded;
    front = rw (w.nodes i (out i (ground arith))) r.front;
    back = rw (w.nodes (last i js) (out (last i js) (has-last i js))) r.back;
  }

  pub held-frame :
      (is : List ℕ) → ((k : ℕ) → has k is ≡ true → has k ks ≡ false) → items q is ≡ items p is
  held-frame is out = items-frame p q is (λ k h. ground (arith, w.nodes k (out k h)))

not_of : {b : Bool} → (b ≡ true → ⊥) → b ≡ false
not_of {b = true} h = absurd (h refl)
not_of {b = false} h = refl

-- A call that changed the queue `a`, and nothing of the others.
module _ (n : ℕ) (idx : ℕ → ℕ) (p q : Pool) (ns : ℕ → List ℕ) (fs : List ℕ) (xs : ℕ → List ℕ)
    (h : Holds n idx p ns fs xs) (a : ℕ) (below : a < n) (is ys gs ks : List ℕ)
    (c : Changed (idx a) is (map some ys) gs ks p q)
    (out : (b : ℕ)
      → b < n
      → (a == b) ≡ false
      → (k : ℕ) → has k (ns b) ≡ true
      → (has k ks ≡ false) × (has k is ≡ false) × (has k gs ≡ false))
    (own : (k : ℕ) → has k is ≡ true → has k gs ≡ false) where
  Runs-after : (b : ℕ) → b < n → Runs q (idx b) (update ns a is b)
  Runs-after b lt = elim (Bool-cases (a == b)) [
    | inl e ↦ rw e (let at : a ≡ b = ground (arith, e) in subst (λ m. Runs q (idx m) is) at c.runs)
    | inr e ↦ rw e (
        Runs-frame p q ks (idx a) c.within (idx b) (ns b) (h.lists b a lt below (ground (arith, e)))
          (λ k m. (out b lt e k m).0) (h.runs b lt))
  ]

  held_after : (b : ℕ) → b < n → items q (update ns a is b) ≡ map some (update xs a ys b)
  held_after b lt = elim (Bool-cases (a == b)) [
    | inl e ↦ rw e c.items_are
    | inr e ↦
        rw e (held-frame p q ks (idx a) c.within (ns b) (λ k m. (out b lt e k m).0) ∙ h.held b lt)
  ]

  apart_after :
      (b d : ℕ)
      → b < n
      → d < n
      → (b == d) ≡ false
      → (k : ℕ) → has k (update ns a is b) ≡ true
      → has k (update ns a is d) ≡ false
  apart_after b d lb ld off k m = elim (Bool-cases (a == b)) [
    | inl e ↦ elim (Bool-cases (a == d)) [
      | inl e' ↦ absurd (ground (arith, e, e', off))
      | inr e' ↦ rw e' (not_of (λ t. ground (arith, (out d ld e' k t).1, m, e)))
    ]
    | inr e ↦ elim (Bool-cases (a == d)) [
      | inl e' ↦ rw e' ((out b lb e k (rw e at m)).1)
      | inr e' ↦ rw e' (h.apart b d lb ld off k (rw e at m))
    ]
  ]

  spare_after : (b : ℕ) → b < n → (k : ℕ) → has k (update ns a is b) ≡ true → has k gs ≡ false
  spare_after b lt k m = elim (Bool-cases (a == b)) [
    | inl e ↦ own k (rw e at m)
    | inr e ↦ (out b lt e k (rw e at m)).2
  ]

  pub Holds-update : Holds n idx q (update ns a is) gs (update xs a ys)
  Holds-update = record {
    runs = Runs-after;
    held = held_after;
    lists = h.lists;
    apart = apart_after;
    free = c.free;
    spare = spare_after;
  }
