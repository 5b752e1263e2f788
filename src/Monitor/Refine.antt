-- ===== src/Monitor/Refine.antt =====
-- MonEnter, MonLeave and MonWait against the Hoare monitor, while no queue holds two processes.
use monitors_and_ipc.Prelude.{
  ℕ, ◌+◌, ◌<◌, ◌≡◌, refl, true, false, Option, none, some, List, [], ◌∷◌, ◌++◌, length, update, ap,
  arith, pos, Bool-cases, inl, inr, ltb, ltb→lt, ◌&&◌, minus_one, negsuc,
}
use monitors_and_ipc.NodePool.{Pool, done, pure}
use monitors_and_ipc.NodePool.Shape.{Ends, Ends-bind, Ends-mono}
use monitors_and_ipc.NodePool.Add.{list_append}
use monitors_and_ipc.NodePool.Queues.{put_lem}
use monitors_and_ipc.Monitor.{
  Monitor, Replies, hand_on, released, on_enter, on_leave, on_wait, owns, is_condition,
}
use monitors_and_ipc.Monitor.Hoare.{Hoare, IsSparse, hand, enter, leave, wait, free, join, admit}
use monitors_and_ipc.Monitor.Agree.{Agrees, Answers}
use monitors_and_ipc.Monitor.Grant.{hand_lem, Agrees-released}

module _ (idx : ℕ → ℕ) (ns : ℕ → List ℕ) (f : ℕ) (fs : List ℕ) (p : Pool) (m : Monitor) (a : Hoare)
    (g : Agrees idx ns (f ∷ fs) p m a) (sender : ℕ) where
  -- A process joins queue `k`.
  join_lem :
      (k : ℕ)
      → k < a.num + 2
      → Ends
          (λ _ q. Agrees idx (update ns k (ns k ++ f ∷ [])) fs q m (join k sender a))
          (list_append (some (idx k)) (some sender) p)
  join_lem k lt =
      Ends-mono _ (λ _ q. Agrees idx (update ns k (ns k ++ f ∷ [])) fs q m (join k sender a)) _
        (put_lem (a.num + 2) idx p ns f fs a.waiting g.queues k lt sender)
        λ r q e. record {
          queues = e.1;
          locked = g.locked;
          owner = g.owner;
          entry = g.entry;
          urgent = g.urgent;
          conditions = g.conditions;
          num = g.num;
        }

  enter_cases :
      (o : Option ℕ)
      → a.owner ≡ o
      → Ends (Answers idx (length fs) (admit o sender a)) (on_enter m sender p)
  unfolding on_enter
  enter_cases none e =
      let unlocked : m.monitor_locked ≡ false = ground (arith, g.locked) in
      simp unlocked (
        ns,
        f ∷ fs,
        record {
          queues = g.queues;
          locked = refl;
          owner = refl;
          entry = g.entry;
          urgent = g.urgent;
          conditions = g.conditions;
          num = g.num;
        },
        refl,
        omega arith,
      )
  enter_cases (some other) e =
      let busy : m.monitor_locked ≡ true = ground (arith, g.locked) in
      simp (busy, g.entry)
        (Ends-bind _ (Answers idx (length fs) (join 0 sender a, []))
          (list_append (some (idx 0)) (some sender) p) (λ _. pure (m, []))
          (join_lem 0 (omega arith))
          λ _ q e. (update ns 0 (ns 0 ++ f ∷ []), fs, e, refl, omega arith))

  -- When the server's state stands for a Hoare monitor and a node is free, the handler of MonEnter
  -- ends with no fault, with the replies and the new state of the monitor's `enter`, and takes at
  -- most one node.
  pub enter_refines : Ends (Answers idx (length fs) (enter sender a)) (on_enter m sender p)
  enter_refines = enter_cases a.owner refl

  same_owner : owns m.current_owner sender ≡ owns a.owner sender
  same_owner = ap (λ o. owns o sender) g.owner

  pub refused : (rs : Replies) → Answers idx (length fs) (a, rs) (m, rs) p
  refused rs = (ns, f ∷ fs, g, refl, omega arith)

  -- When the server's state stands for a Hoare monitor and no queue holds two processes, the
  -- handler of MonLeave ends with no fault, with the replies and the new state of the monitor's
  -- `leave`: -1 unless the sender owns it, else it goes to the urgent queue first and the entry
  -- queue second.
  pub leave_refines :
      IsSparse a → Ends (Answers idx (length fs) (leave sender a)) (on_leave m sender p)
  unfolding on_leave
  leave_refines sparse = elim (Bool-cases (owns a.owner sender)) [
    | inl e ↦
        simp (same_owner, e)
          (Ends-bind (Answers idx (length (f ∷ fs)) (hand (free a)))
            (Answers idx (length fs) ((hand (free a)).0, (sender, pos 0) ∷ (hand (free a)).1))
            (hand_on (released m) p) (λ (m', replies). pure (m', (sender, pos 0) ∷ replies))
            (hand_lem idx ns (f ∷ fs) p (released m) (free a)
              (Agrees-released idx ns (f ∷ fs) p m a g) (sparse 1 (omega arith))
              (sparse 0 (omega arith)))
            λ r q (ns', fs', h, same, k). (ns', fs', h, cc same, omega arith))
    | inr e ↦ simp (same_owner, e) (refused _)
  ]

  pub allowed :
      (c : ℕ)
      → (owns m.current_owner sender && is_condition (pos c) m.num_conditions)
        ≡ (owns a.owner sender && ltb c a.num)
  allowed c = simp (same_owner, g.num)

  -- When the server's state stands for a Hoare monitor with a free node and no queue of two
  -- processes, the handler of MonWait on a condition that is not negative ends with no fault, with
  -- the replies and the new state of the monitor's `wait`; the sender, if it owns the monitor and
  -- the condition is there, gets no reply.
  pub wait_refines :
      (c : ℕ)
      → IsSparse a
      → Ends (Answers idx (length fs) (wait sender c a)) (on_wait m sender (pos c) p)
  unfolding on_wait
  wait_refines c sparse = elim (Bool-cases (owns a.owner sender && ltb c a.num)) [
    | inl e ↦
        let lt : c < a.num = ltb→lt c a.num (ground arith) in
        simp (allowed c, e, g.conditions c lt)
          (Ends-bind _ (Answers idx (length fs) (hand (free (join (c + 2) sender a))))
            (list_append (some (idx (c + 2))) (some sender) p) (λ _. hand_on (released m))
            (join_lem (c + 2) (omega arith))
            λ _ q h.
              hand_lem idx (update ns (c + 2) (ns (c + 2) ++ f ∷ [])) fs q (released m)
                (free (join (c + 2) sender a))
                (Agrees-released idx _ fs q m (join (c + 2) sender a) h)
                (ground (arith, sparse 1 (omega arith))) (ground (arith, sparse 0 (omega arith))))
    | inr e ↦ simp (allowed c, e) (refused _)
  ]

  wait_invalid : (c : ℕ) → on_wait m sender (negsuc c) p ≡ done (m, (sender, minus_one) ∷ []) p
  unfolding on_wait
  wait_invalid c = ground arith
