-- ===== src/Monitor/Idle.antt =====
-- Whether the monitor can be free while a process waits for it.
use monitors_and_ipc.Prelude.{
  ℕ, ◌+◌, ◌≤◌, ◌≡◌, ◌∙◌, refl, ◌&&◌, Option, none, some, List, [], ◌∷◌, length, arith, pos,
  Bool-cases, inl, inr, ltb, sym,
}
use monitors_and_ipc.NodePool.{Pool, done}
use monitors_and_ipc.NodePool.Shape.{Ends, Ends-mono}
use monitors_and_ipc.NodePool.Alloc.{initial_pool}
use monitors_and_ipc.NodePool.Move.{list_count}
use monitors_and_ipc.Monitor.{
  Monitor, Replies, mon_server, initial_monitor, mon_init, max_conds, owns,
}
use monitors_and_ipc.Monitor.Hoare.{Hoare, pick, free, join, admit, wake}
use monitors_and_ipc.Monitor.Agree.{count_lem}
use monitors_and_ipc.Monitor.Init.{fresh}
use monitors_and_ipc.Monitor.Run.{
  Request, enters, leaves, waits, signals, step, run, messages, StaysSparse,
}
use monitors_and_ipc.Monitor.Server.{server_run, Reaches}

-- When nobody owns the monitor, nobody waits for it.
abbrev pub IsBusy : Hoare → Type 0
IsBusy a = a.owner ≡ none → (a.waiting 0 ≡ []) × (a.waiting 1 ≡ [])

pick-IsBusy :
    (us es : List ℕ) (a : Hoare) → a.waiting 1 ≡ us → a.waiting 0 ≡ es → IsBusy (pick us es a).0
pick-IsBusy (u ∷ us) es a e f = λ n. absurd (cc)
pick-IsBusy [] (x ∷ es) a e f = λ n. absurd (cc)
pick-IsBusy [] [] a e f = λ n. (f, e)

admit-IsBusy : (o : Option ℕ) (pid : ℕ) (a : Hoare) → a.owner ≡ o → IsBusy (admit o pid a).0
admit-IsBusy none pid a e = λ n. absurd (cc)
admit-IsBusy (some other) pid a e = λ n. absurd (cc)

wake-IsBusy : (ws : List ℕ) (pid c : ℕ) (a : Hoare) → IsBusy a → IsBusy (wake ws pid c a).0
wake-IsBusy [] pid c a h = h
wake-IsBusy (w ∷ ws) pid c a h = λ n. absurd (cc)

step-IsBusy : (pid : ℕ) (r : Request) (a : Hoare) → IsBusy a → IsBusy (step (pid, r) a).0
step-IsBusy pid enters a h = admit-IsBusy a.owner pid a refl
step-IsBusy pid leaves a h = elim (Bool-cases (owns a.owner pid)) [
  | inl e ↦ rw e (pick-IsBusy (a.waiting 1) (a.waiting 0) (free a) refl refl)
  | inr e ↦ rw e h
]
step-IsBusy pid (waits c) a h = elim (Bool-cases (owns a.owner pid && ltb c a.num)) [
  | inl e ↦ rw e (
      let b : Hoare = free (join (c + 2) pid a) in
      pick-IsBusy (b.waiting 1) (b.waiting 0) b refl refl)
  | inr e ↦ rw e h
]
step-IsBusy pid (signals c) a h = elim (Bool-cases (owns a.owner pid && ltb c a.num)) [
  | inl e ↦ rw e (wake-IsBusy (a.waiting (c + 2)) pid c a h)
  | inr e ↦ rw e h
]

run-IsBusy : (rs : List (ℕ × Request)) (a : Hoare) → IsBusy a → IsBusy (run rs a).0
unfolding run
run-IsBusy [] a h = h
run-IsBusy ((pid, r) ∷ rs) a h = run-IsBusy rs (step (pid, r) a).0 (step-IsBusy pid r a h)

-- When nobody owns the monitor, ListCount of the entry queue and of the urgent queue is 0.
abbrev pub NeverIdle : Monitor × Replies → Pool → Type 0
NeverIdle (m, out) q =
    m.current_owner ≡ none
    → (list_count m.entry_queue q ≡ done (pos 0) q) × (list_count m.urgent_queue q ≡ done (pos 0) q)

-- From the program's initial variables, after MonInit with at most MAX_CONDS conditions and up to 1000
-- requests, with no queue that holds two processes when a request comes, the server runs on with no
-- fault, and if nobody owns the monitor then nobody is in the entry queue or the urgent queue.
pub never_idle :
    (n sender : ℕ) (rs : List (ℕ × Request))
    → n ≤ max_conds
    → StaysSparse rs (fresh n)
    → length rs ≤ 1000
    → Ends NeverIdle
        (mon_server initial_monitor ((sender, some (mon_init (pos n))) ∷ messages rs) initial_pool)
never_idle n sender rs few sparse room =
    Ends-mono (Reaches n sender rs) NeverIdle _ (server_run n sender rs few sparse room)
      λ (m, out) q (ns, fs, g, same) free_now.
        let a : Hoare = (run rs (fresh n)).0 in
        let none_waits : (a.waiting 0 ≡ []) × (a.waiting 1 ≡ []) =
          run-IsBusy rs (fresh n) (λ e. (refl, refl)) (sym g.owner ∙ free_now) in
        (
          rw
              (
                g.entry,
                count_lem (a.num + 2) (λ b. b) q ns fs a.waiting g.queues 0 (omega arith),
                none_waits.0,
              )
              refl,
          rw
              (
                g.urgent,
                count_lem (a.num + 2) (λ b. b) q ns fs a.waiting g.queues 1 (omega arith),
                none_waits.1,
              )
              refl,
        )
