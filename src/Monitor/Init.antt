-- ===== src/Monitor/Init.antt =====
-- MonInit on the program's initial state: the queues that it creates.
use monitors_and_ipc.Prelude.{
  ℕ, zero, suc, ◌+◌, ◌<◌, ◌≤◌, ◌≡◌, ◌∙◌, refl, true, Option, none, some, List, [], ◌∷◌, update, ap,
  arith, pos, ◌==◌, Bool-cases, inl, inr, subst,
}
use monitors_and_ipc.NodePool.{Pool}
use monitors_and_ipc.NodePool.Shape.{Ends, Ends-bind, IsFree}
use monitors_and_ipc.NodePool.Alloc.{initial_pool, list_create}
use monitors_and_ipc.NodePool.Alloc.Create.{count_up, IsFreeLists, create_first, create_again}
use monitors_and_ipc.Monitor.{
  Monitor, Replies, initial_monitor, on_init, create_conditions, at_most_max, max_conds,
}
use monitors_and_ipc.Monitor.Hoare.{Hoare}
use monitors_and_ipc.Monitor.Agree.{Agrees}

-- `k` lists are left, the first `c + 2` are empty queues, and `c` conditions have theirs.
record Built (fs : List ℕ) (c k : ℕ) (queues : ℕ → Option ℕ) (p : Pool) : Type 0 where
  ready : p.initialized ≡ true
  lists : IsFreeLists p (count_up (c + 2) k)
  empty : (a : ℕ) → a < c + 2 → (p.pool_lists a).count ≡ 0
  free : IsFree p fs
  old : (i : ℕ) → i < c → queues i ≡ some (i + 2)
  new : (i : ℕ) → c ≤ i → queues i ≡ none

conditions-Built :
    (fs : List ℕ) (r c k : ℕ) (queues : ℕ → Option ℕ) (p : Pool)
    → Built fs c k queues p
    → r ≤ k
    → Ends (λ queues' q. (k' : ℕ) × Built fs (c + r) k' queues' q) (create_conditions r c queues p)
unfolding create_conditions count_up
conditions-Built fs zero c k queues p b room = (k, rw (let e : c + 0 ≡ c = omega arith in e) b)
conditions-Built fs (suc r) c zero queues p b room = absurd (omega arith)
conditions-Built fs (suc r) c (suc k) queues p b room = rw (b.new c (omega arith)) (
    Ends-bind _ (λ queues' q. (k' : ℕ) × Built fs (c + suc r) k' queues' q) (list_create p)
      (λ queue. create_conditions r (suc c) (update queues c queue))
      (create_again p b.ready (c + 2) (count_up (suc (c + 2)) k) fs b.lists b.free)
      λ l q (at, empty, lists, nodes, others, same, ready).
        rw (let e : c + suc r ≡ suc c + r = omega arith in e) (
          conditions-Built fs r (suc c) k (update queues c l) q
            (record {
              ready = ready;
              lists = rw (let e : suc c + 2 ≡ suc (c + 2) = omega arith in e) lists;
              empty = λ a lt. elim (Bool-cases (a == c + 2)) [
                | inl e ↦ (let e' : a ≡ c + 2 = ground (arith, e) in rw e' empty)
                | inr e ↦ rw (others a e) (b.empty a (ground (arith, e)))
              ];
              free = nodes;
              old = λ i lt. elim (Bool-cases (c == i)) [
                | inl e ↦ rw e (at ∙ ap some (ground (arith, e)))
                | inr e ↦ rw e (b.old i (ground (arith, e)))
              ];
              new = λ i le. ground (arith, b.new i);
            })
            (omega arith)))

-- A monitor that nobody owns, with `n` conditions and empty queues.
abbrev pub fresh : ℕ → Hoare
fresh n = record { owner = none; waiting = λ q. []; num = n }

few_conditions : (n : ℕ) → n ≤ max_conds → at_most_max (pos n) ≡ pos n
few_conditions n few = ground arith

Agrees-Built :
    (n k : ℕ) (queues : ℕ → Option ℕ) (p : Pool)
    → Built (count_up 0 1000) n k queues p
    → Agrees
        (λ a. a)
        (λ a. [])
        (count_up 0 1000)
        p
        (record initial_monitor {
          num_conditions = pos n;
          entry_queue = some 0;
          urgent_queue = some 1;
          condition_queues = queues;
        })
        (fresh n)
unfolding initial_monitor
Agrees-Built n k queues p b = record {
  queues = record {
    runs = b.empty;
    held = λ a lt. refl;
    lists = λ c d lc ld off. off;
    apart = λ c d lc ld off m h. absurd (cc);
    free = b.free;
    spare = λ c lt m h. absurd (cc);
  };
  locked = refl;
  owner = refl;
  entry = refl;
  urgent = refl;
  conditions = b.old;
  num = refl;
}

both_empty :
    (p q : Pool)
    → (p.pool_lists 0).count ≡ 0
    → (q.pool_lists 1).count ≡ 0
    → q.pool_lists 0 ≡ p.pool_lists 0
    → (a : ℕ) → a < 2
    → (q.pool_lists a).count ≡ 0
both_empty p q first second same a lt = elim (Bool-cases (a == 1)) [
  | inl e ↦ (let e' : a ≡ 1 = ground (arith, e) in rw e' second)
  | inr e ↦ (let e' : a ≡ 0 = ground (arith, e) in rw e' (ap (λ l. l.count) same ∙ first))
]

abbrev pub Started : ℕ → ℕ → Monitor × Replies → Pool → Type 0
Started n sender (m, out) q =
    Agrees (λ a. a) (λ a. []) (count_up 0 1000) q m (fresh n) × (out ≡ (sender, pos 0) ∷ [])

-- MonInit with at most MAX_CONDS conditions, the first message to the program, ends with no fault,
-- replies 0 to the sender, and leaves a state that stands for a free monitor with so many
-- conditions and empty queues, with all 1000 nodes free.
pub init_agrees :
    (n sender : ℕ)
    → n ≤ max_conds
    → Ends (Started n sender) (on_init initial_monitor sender (pos n) initial_pool)
unfolding on_init initial_monitor initial_pool count_up
init_agrees n sender few = rw (few_conditions n few) (
    Ends-bind _ (Started n sender) (list_create initial_pool) _
      (create_first initial_pool refl refl refl)
      λ entry p (at, ready, empty, lists, nodes).
        Ends-bind _ (Started n sender) (list_create p) _
          (create_again p ready 1 (count_up 2 18) (count_up 0 1000) lists nodes)
          λ urgent q (at', empty', lists', nodes', others, same, ready').
            Ends-bind _ (Started n sender) (create_conditions n 0 (λ c. none) q) _
              (conditions-Built (count_up 0 1000) n 0 18 (λ c. none) q
                (record {
                  ready = ready';
                  lists = lists';
                  empty = both_empty p q empty empty' (others 0 refl);
                  free = nodes';
                  old = λ i lt. absurd (omega arith);
                  new = λ i le. refl;
                })
                (omega arith))
              λ queues r (k, b). rw at (
                rw at' (
                  Agrees-Built n k queues r (
                      subst (λ j. Built (count_up 0 1000) j k queues r)
                        (let e : 0 + n ≡ n = omega arith in e) b),
                  refl,
                )))
