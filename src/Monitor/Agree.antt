-- ===== src/Monitor/Agree.antt =====
-- The server's variables and the pools stand for the state of a Hoare monitor.
use monitors_and_ipc.Prelude.{
  ℕ, suc, ◌+◌, ◌<◌, ◌≤◌, ◌≡◌, ◌∙◌, refl, Bool, true, false, Option, none, some, List, [], ◌∷◌,
  length, map, update, ap, arith, pos,
}
use monitors_and_ipc.NodePool.{Pool, done, pure}
use monitors_and_ipc.NodePool.Shape.{Ends, Ends-bind, Runs, items}
use monitors_and_ipc.NodePool.Move.{list_count}
use monitors_and_ipc.NodePool.Move.Walk.{stood}
use monitors_and_ipc.NodePool.Remove.{list_remove}
use monitors_and_ipc.NodePool.Queues.{take_lem}
use monitors_and_ipc.NodePool.Queues.Hold.{Holds}
use monitors_and_ipc.Monitor.{Monitor, Replies, next_waiting}
use monitors_and_ipc.Monitor.Hoare.{Hoare}

abbrev pub has_owner : Option ℕ → Bool
has_owner none = false
has_owner (some pid) = true

pub record Agrees (idx : ℕ → ℕ) (ns : ℕ → List ℕ) (fs : List ℕ) (p : Pool) (m : Monitor) (a : Hoare)
    : Type 0 where
  pub queues : Holds (a.num + 2) idx p ns fs a.waiting
  pub locked : m.monitor_locked ≡ has_owner a.owner
  pub owner : m.current_owner ≡ a.owner
  pub entry : m.entry_queue ≡ some (idx 0)
  pub urgent : m.urgent_queue ≡ some (idx 1)
  pub conditions : (c : ℕ) → c < a.num → m.condition_queues c ≡ some (idx (c + 2))
  pub num : m.num_conditions ≡ pos a.num

-- The server's new state and replies are those of the monitor, and `k` nodes are still free.
abbrev pub Answers : (ℕ → ℕ) → ℕ → Hoare × Replies → Monitor × Replies → Pool → Type 0
Answers idx k (a, rs) (m, out) q =
    (ns : ℕ → List ℕ) × (fs : List ℕ) × Agrees idx ns fs q m a × (out ≡ rs) × (k ≤ length fs)

count_of_Runs :
    (p : Pool) (l : ℕ) (is xs : List ℕ)
    → Runs p l is
    → items p is ≡ map some xs
    → (p.pool_lists l).count ≡ length xs
count_of_Runs p l [] [] r e = r
count_of_Runs p l [] (x ∷ xs) r e = absurd (cc)
count_of_Runs p l (i ∷ js) [] r e = absurd (cc)
count_of_Runs p l (i ∷ js) (x ∷ xs) r e = r.count ∙ ap suc (same js xs (ground arith))
  where
    same : (js xs : List ℕ) → items p js ≡ map some xs → length js ≡ length xs
    same [] [] e = refl
    same [] (x ∷ xs) e = absurd (cc)
    same (j ∷ js) [] e = absurd (cc)
    same (j ∷ js) (x ∷ xs) e = ap suc (same js xs (ground arith))

module _ (n : ℕ) (idx : ℕ → ℕ) (p : Pool) (ns : ℕ → List ℕ) (fs : List ℕ) (xs : ℕ → List ℕ)
    (h : Holds n idx p ns fs xs) (a : ℕ) (below : a < n) where
  -- ListCount is the length of the queue.
  pub count_lem : list_count (some (idx a)) p ≡ done (pos (length (xs a))) p
  unfolding list_count
  count_lem = rw (count_of_Runs p (idx a) (ns a) (xs a) (h.runs a below) (h.held a below)) refl

  pub next_lem :
      (x : ℕ)
      → xs a ≡ x ∷ []
      → Ends
          (λ pid q.
            (pid ≡ x) × ((i : ℕ) × Holds n idx q (update ns a []) (i ∷ fs) (update xs a [])))
          (next_waiting (some (idx a)) p)
  unfolding next_waiting
  next_lem x one =
      let (i, first, rest) = take_lem n idx p ns fs xs h a below x one in
      rw first (
        Ends-bind _
          (λ pid q.
            (pid ≡ x) × ((i : ℕ) × Holds n idx q (update ns a []) (i ∷ fs) (update xs a [])))
          (list_remove (some (idx a)) (stood (idx a) (some i) p)) (λ _. pure x) rest
          λ y q e. (refl, (i, e.1)))
