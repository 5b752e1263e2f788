-- ===== src/Monitor/Grant.antt =====
-- Handing the monitor to the next process, while no queue holds two.
use monitors_and_ipc.Prelude.{
  ℕ, ◌+◌, ◌<◌, ◌≤◌, ◌≡◌, refl, some, List, [], ◌∷◌, length, update, ap, arith, pos,
}
use monitors_and_ipc.NodePool.{Pool, pure}
use monitors_and_ipc.NodePool.Shape.{Ends, Ends-bind}
use monitors_and_ipc.Monitor.{Monitor, next_waiting, hand_on, grant_next, granted, released}
use monitors_and_ipc.Monitor.Hoare.{Hoare, hand, pick, free}
use monitors_and_ipc.Monitor.Agree.{Agrees, Answers, count_lem, next_lem}

module _ (idx : ℕ → ℕ) (ns : ℕ → List ℕ) (fs : List ℕ) (p : Pool) (m : Monitor) (a : Hoare)
    (g : Agrees idx ns fs p m a) where
  -- The monitor goes to `x`, the only process of queue `k`.
  grant_lem :
      (k : ℕ)
      → k < a.num + 2
      → (x : ℕ) → a.waiting k ≡ x ∷ []
      → Ends
          (Answers idx
            (length fs)
            (record a { owner = some x; waiting = update a.waiting k [] }, (x, pos 0) ∷ []))
          (grant_next (some (idx k)) m p)
  unfolding grant_next
  grant_lem k lt x one =
      Ends-bind _
        (Answers idx (length fs)
          (record a { owner = some x; waiting = update a.waiting k [] }, (x, pos 0) ∷ []))
        (next_waiting (some (idx k)) p) (λ pid. pure (granted pid m, (pid, pos 0) ∷ []))
        (next_lem (a.num + 2) idx p ns fs a.waiting g.queues k lt x one)
        λ pid q (e, (i, h)). (
          update ns k [],
          i ∷ fs,
          record {
            queues = h;
            locked = refl;
            owner = ap some e;
            entry = g.entry;
            urgent = g.urgent;
            conditions = g.conditions;
            num = g.num;
          },
          cc e,
          omega arith,
        )

  hand_cases :
      (us es : List ℕ)
      → a.waiting 1 ≡ us
      → a.waiting 0 ≡ es
      → length us ≤ 1
      → length es ≤ 1
      → Ends (Answers idx (length fs) (pick us es a)) (hand_on m p)
  unfolding hand_on
  hand_cases (u ∷ v ∷ us) es e f lu le = absurd (omega arith)
  hand_cases (u ∷ []) es e f lu le =
      simp (g.urgent, count_lem (a.num + 2) idx p ns fs a.waiting g.queues 1 (omega arith), e)
        (grant_lem 1 (omega arith) u e)
  hand_cases [] (x ∷ y ∷ es) e f lu le = absurd (omega arith)
  hand_cases [] (x ∷ []) e f lu le =
      simp
        (
          g.urgent,
          g.entry,
          count_lem (a.num + 2) idx p ns fs a.waiting g.queues 1 (omega arith),
          count_lem (a.num + 2) idx p ns fs a.waiting g.queues 0 (omega arith),
          e,
          f,
        )
        (grant_lem 0 (omega arith) x f)
  hand_cases [] [] e f lu le =
      simp
        (
          g.urgent,
          g.entry,
          count_lem (a.num + 2) idx p ns fs a.waiting g.queues 1 (omega arith),
          count_lem (a.num + 2) idx p ns fs a.waiting g.queues 0 (omega arith),
          e,
          f,
        )
        (ns, fs, g, refl, omega arith)

  pub hand_lem :
      length (a.waiting 1) ≤ 1
      → length (a.waiting 0) ≤ 1
      → Ends (Answers idx (length fs) (hand a)) (hand_on m p)
  hand_lem = hand_cases (a.waiting 1) (a.waiting 0) refl refl

-- The same variables with nobody in the monitor.
pub Agrees-released :
    (idx : ℕ → ℕ) (ns : ℕ → List ℕ) (fs : List ℕ) (p : Pool) (m : Monitor) (a : Hoare)
    → Agrees idx ns fs p m a
    → Agrees idx ns fs p (released m) (free a)
Agrees-released idx ns fs p m a g = record {
  queues = g.queues;
  locked = refl;
  owner = refl;
  entry = g.entry;
  urgent = g.urgent;
  conditions = g.conditions;
  num = g.num;
}
