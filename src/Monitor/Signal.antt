-- ===== src/Monitor/Signal.antt =====
-- MonSignal against the Hoare monitor, while no queue holds two processes.
use monitors_and_ipc.Prelude.{
  ℕ, ◌+◌, ◌<◌, ◌≤◌, ◌≡◌, refl, true, some, List, [], ◌∷◌, length, update, ap, arith, pos,
  Bool-cases, inl, inr, ltb, ltb→lt, ◌&&◌,
}
use monitors_and_ipc.NodePool.{Pool, ◌>>◌, pure}
use monitors_and_ipc.NodePool.Shape.{Ends, Ends-bind}
use monitors_and_ipc.NodePool.Add.{list_append}
use monitors_and_ipc.NodePool.Queues.{put_lem}
use monitors_and_ipc.Monitor.{Monitor, next_waiting, on_signal, wake_next, owns}
use monitors_and_ipc.Monitor.Hoare.{Hoare, IsSparse, signal, wake}
use monitors_and_ipc.Monitor.Agree.{Agrees, Answers, count_lem, next_lem}
use monitors_and_ipc.Monitor.Refine.{allowed, refused}

module _ (idx : ℕ → ℕ) (ns : ℕ → List ℕ) (f : ℕ) (fs : List ℕ) (p : Pool) (m : Monitor) (a : Hoare)
    (g : Agrees idx ns (f ∷ fs) p m a) (sender : ℕ) where
  -- The signalled process takes over, and the signaller joins the urgent queue.
  woken :
      (c w : ℕ)
      → c < a.num
      → owns a.owner sender ≡ true
      → a.waiting (c + 2) ≡ w ∷ []
      → Ends
          (Answers idx (length fs) (wake (w ∷ []) sender c a))
          (wake_next (some (idx (c + 2))) (some (idx 1)) m sender p)
  unfolding wake_next
  woken c w lt mine e =
      Ends-bind _ (Answers idx (length fs) (wake (w ∷ []) sender c a))
        (next_waiting (some (idx (c + 2))) p)
        (λ pid.
          list_append (some (idx 1)) (some sender)
          >> pure (record m { current_owner = some pid }, (pid, pos 0) ∷ []))
        (next_lem (a.num + 2) idx p ns (f ∷ fs) a.waiting g.queues (c + 2) (omega arith) w e)
        λ pid q (same, (i, h)).
          Ends-bind _ (Answers idx (length fs) (wake (w ∷ []) sender c a))
            (list_append (some (idx 1)) (some sender) q)
            (λ _. pure (record m { current_owner = some pid }, (pid, pos 0) ∷ []))
            (put_lem (a.num + 2) idx q (update ns (c + 2) []) i (f ∷ fs)
              (update a.waiting (c + 2) []) h 1 (omega arith) sender)
            λ _ r (_, h'). (
              _,
              f ∷ fs,
              record {
                queues = h';
                locked = ground (arith, g.locked);
                owner = ap some same;
                entry = g.entry;
                urgent = g.urgent;
                conditions = g.conditions;
                num = g.num;
              },
              cc same,
              omega arith,
            )

  signal_cases :
      (c : ℕ) (ws : List ℕ)
      → c < a.num
      → owns a.owner sender ≡ true
      → a.waiting (c + 2) ≡ ws
      → length ws ≤ 1
      → (owns a.owner sender && ltb c a.num) ≡ true
      → Ends (Answers idx (length fs) (wake ws sender c a)) (on_signal m sender (pos c) p)
  unfolding on_signal
  signal_cases c [] lt mine e few t =
      simp
        (
          allowed idx ns f fs p m a g sender c,
          t,
          g.conditions c lt,
          count_lem (a.num + 2) idx p ns (f ∷ fs) a.waiting g.queues (c + 2) (omega arith),
          e,
        )
        (refused idx ns f fs p m a g sender _)
  signal_cases c (w ∷ []) lt mine e few t =
      simp
        (
          allowed idx ns f fs p m a g sender c,
          t,
          g.conditions c lt,
          count_lem (a.num + 2) idx p ns (f ∷ fs) a.waiting g.queues (c + 2) (omega arith),
          e,
          g.urgent,
        )
        (woken c w lt mine e)
  signal_cases c (w ∷ v ∷ ws) lt mine e few t = absurd (omega arith)

  -- When the server's state stands for a Hoare monitor with a free node and no queue of two
  -- processes, the handler of MonSignal on a condition that is not negative ends with no fault,
  -- with the replies and the new state of the monitor's `signal`: the first that waits owns the
  -- monitor, and the sender joins the urgent queue.
  pub signal_refines :
      (c : ℕ)
      → IsSparse a
      → Ends (Answers idx (length fs) (signal sender c a)) (on_signal m sender (pos c) p)
  signal_refines c sparse = elim (Bool-cases (owns a.owner sender && ltb c a.num)) [
    | inl e ↦
        let lt : c < a.num = ltb→lt c a.num (ground arith) in
        rw e (
          signal_cases c (a.waiting (c + 2)) lt (ground arith) refl (sparse (c + 2) (omega arith))
            e)
    | inr e ↦ rw e (
        unfold on_signal in
        simp (allowed idx ns f fs p m a g sender c, e) (refused idx ns f fs p m a g sender _))
  ]
