-- ===== src/Monitor/Server.antt =====
-- The server from its static variables on: MonInit, then the requests of the processes.
use monitors_and_ipc.Prelude.{
  ℕ, zero, suc, ◌≤◌, ◌≡◌, refl, some, List, [], ◌∷◌, ◌++◌, length, pos, ap,
}
use monitors_and_ipc.NodePool.{Pool, pure}
use monitors_and_ipc.NodePool.Shape.{Ends, Ends-bind, Ends-mono}
use monitors_and_ipc.NodePool.Alloc.{initial_pool}
use monitors_and_ipc.NodePool.Alloc.Create.{count_up}
use monitors_and_ipc.Monitor.{
  Monitor, Replies, mon_server, serve, initial_monitor, on_init, mon_init, max_conds,
}
use monitors_and_ipc.Monitor.Init.{fresh, Started, init_agrees}
use monitors_and_ipc.Monitor.Run.{Request, run, run_refines, messages, StaysSparse}
use monitors_and_ipc.Monitor.Agree.{Agrees, Answers}

length-count_up : (k n : ℕ) → length (count_up k n) ≡ n
unfolding count_up
length-count_up k zero = refl
length-count_up k (suc n) = ap suc (length-count_up (suc k) n)

-- The state reached stands for the monitor's, with the replies to the sender of the initialisation and
-- then those of the monitor.
abbrev pub Reaches : (n sender : ℕ) → List (ℕ × Request) → Monitor × Replies → Pool → Type 0
Reaches n sender rs (m, out) q =
    (ns : ℕ → List ℕ) × (fs : List ℕ) × Agrees (λ a. a) ns fs q m (run rs (fresh n)).0
    × (out ≡ (sender, pos 0) ∷ (run rs (fresh n)).1)

pub server_run :
    (n sender : ℕ) (rs : List (ℕ × Request))
    → n ≤ max_conds
    → StaysSparse rs (fresh n)
    → length rs ≤ 1000
    → Ends
        (Reaches n sender rs)
        (mon_server initial_monitor ((sender, some (mon_init (pos n))) ∷ messages rs) initial_pool)
unfolding mon_server serve
server_run n sender rs few sparse room =
    Ends-bind (Started n sender) (Reaches n sender rs)
      (on_init initial_monitor sender (pos n) initial_pool) _ (init_agrees n sender few)
      λ (m, out) q (g, first).
        Ends-bind (Answers (λ a. a) 0 (run rs (fresh n))) (Reaches n sender rs)
          (mon_server m (messages rs) q) (λ (m', later). pure (m', out ++ later))
          (run_refines (λ a. a) rs (λ a. []) (count_up 0 1000) q m (fresh n) g sparse
            (rw (length-count_up 0 1000) room))
          λ (m', later) q' (ns', fs', g', same, left). (ns', fs', g', cc (first, same))

-- Replies to the sender of the initialisation, then those of the monitor.
abbrev pub Serves : (n sender : ℕ) → List (ℕ × Request) → Monitor × Replies → Pool → Type 0
Serves n sender rs (m, out) q = out ≡ (sender, pos 0) ∷ (run rs (fresh n)).1

-- From the program's initial variables, MonInit with at most MAX_CONDS conditions and then up to
-- 1000 requests, with no queue that holds two processes when a request comes, end with no fault,
-- and the replies are those of the Hoare monitor.
pub server_refines :
    (n sender : ℕ) (rs : List (ℕ × Request))
    → n ≤ max_conds
    → StaysSparse rs (fresh n)
    → length rs ≤ 1000
    → Ends
        (Serves n sender rs)
        (mon_server initial_monitor ((sender, some (mon_init (pos n))) ∷ messages rs) initial_pool)
server_refines n sender rs few sparse room =
    Ends-mono (Reaches n sender rs) (Serves n sender rs) _ (server_run n sender rs few sparse room)
      λ (m, out) q (ns, fs, g, same). same
