-- ===== src/Monitor/Crowded.antt =====
-- MonLeave with more than one process in the entry queue.
use monitors_and_ipc.Prelude.{
  ℕ, suc, ◌≡◌, ◌∙◌, refl, true, false, some, List, [], ◌∷◌, length, arith, pos, ◌==◌, ==_refl,
  lt→ltb,
}
use monitors_and_ipc.NodePool.{Pool, done, fault, max_nodes}
use monitors_and_ipc.NodePool.Shape.{Shape}
use monitors_and_ipc.NodePool.Move.{list_count, list_first}
use monitors_and_ipc.NodePool.Move.Walk.{stood, stood-Shape, list_first_to}
use monitors_and_ipc.NodePool.Remove.Only.{stranded, stranded_eq}
use monitors_and_ipc.Monitor.{
  Monitor, mon_leave, mon_server, serve, on_leave, hand_on, grant_next, next_waiting, granted,
  released, owns,
}

hand_entry :
    (m : Monitor) (p : Pool) (e u n : ℕ)
    → m.entry_queue ≡ some e
    → m.urgent_queue ≡ some u
    → (p.pool_lists u).count ≡ 0
    → (p.pool_lists e).count ≡ suc n
    → hand_on m p ≡ grant_next (some e) m p
unfolding hand_on list_count
hand_entry m p e u n entry urgent quiet busy = simp (entry, urgent, quiet, busy)

module _ (p : Pool) (e u i j x : ℕ) (ks : List ℕ) (s : Shape p e i (j ∷ ks))
    (looped : (p.pool_nodes i).prev ≡ some i) (held : (p.pool_nodes i).item ≡ some x)
    (quiet : (p.pool_lists u).count ≡ 0) (apart : (u == e) ≡ false) where
  abbrev after : Pool
  after = stranded e i j (suc (length ks)) (stood e (some i) p)

  first_turn : next_waiting (some e) p ≡ done x after
  unfolding next_waiting
  first_turn =
      rw
        (
          list_first_to e i (j ∷ ks) p s,
          held,
          stranded_eq e (stood e (some i) p) i j ks (stood-Shape p e i (j ∷ ks) (some i) s) looped
              (ground arith) (ground arith) (ground arith),
        )
        refl

  second_turn : next_waiting (some e) after ≡ fault
  unfolding next_waiting list_first
  second_turn = simp (==_refl e, s.head, ==_refl i, lt→ltb i max_nodes s.bounded.0)

  first_hand :
      (m : Monitor)
      → m.entry_queue ≡ some e
      → m.urgent_queue ≡ some u
      → hand_on m p ≡ done (granted x m, (x, pos 0) ∷ []) after
  unfolding grant_next
  first_hand m entry urgent =
      hand_entry m p e u (suc (length ks)) entry urgent quiet s.count ∙ rw first_turn

  second_hand :
      (m : Monitor) → m.entry_queue ≡ some e → m.urgent_queue ≡ some u → hand_on m after ≡ fault
  unfolding grant_next
  second_hand m entry urgent =
      hand_entry m after e u (length ks) entry urgent (ground (arith, quiet)) (ground arith)
      ∙ rw second_turn

  module _ (m : Monitor) (o : ℕ) (owner : m.current_owner ≡ some o) (entry : m.entry_queue ≡ some e)
      (urgent : m.urgent_queue ≡ some u) where
    abbrev next : Monitor
    next = granted x (released m)

    first_leave : on_leave m o p ≡ done (next, (o, pos 0) ∷ (x, pos 0) ∷ []) after
    unfolding on_leave
    first_leave =
        let mine : owns m.current_owner o ≡ true = ground arith in
        simp (mine, first_hand (released m) entry urgent)

    second_leave : on_leave next x after ≡ fault
    unfolding on_leave
    second_leave = simp (==_refl x, second_hand (released next) entry urgent)

    -- With at least two processes in the entry queue, the first of its nodes its own `prev`, as
    -- ListAppend leaves it, and nobody in the urgent queue, the owner's MonLeave and then that of
    -- the process it hands the monitor to make the server read through NULL.
    pub leave_twice : mon_server m ((o, some mon_leave) ∷ (x, some mon_leave) ∷ []) p ≡ fault
    unfolding mon_server serve
    leave_twice = rw (first_leave, second_leave)
