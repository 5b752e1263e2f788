-- ===== src/Monitor/Run.antt =====
-- Runs of requests to the server, once it is initialised.
use monitors_and_ipc.Prelude.{
  ℕ, ◌≤◌, refl, Option, some, List, [], ◌∷◌, ◌++◌, length, map, arith, pos,
}
use monitors_and_ipc.NodePool.{Pool, pure}
use monitors_and_ipc.NodePool.Shape.{Ends, Ends-bind}
use monitors_and_ipc.Monitor.{
  Monitor, MonMsg, Replies, mon_server, serve, mon_enter, mon_leave, mon_wait, mon_signal,
}
use monitors_and_ipc.Monitor.Hoare.{Hoare, IsSparse, enter, leave, wait, signal}
use monitors_and_ipc.Monitor.Agree.{Agrees, Answers}
use monitors_and_ipc.Monitor.Refine.{enter_refines, leave_refines, wait_refines}
use monitors_and_ipc.Monitor.Signal.{signal_refines}

-- What a process asks for after MonInit.
pub data Request : Type 0 where
  enters leaves : Request
  waits signals : ℕ → Request

-- The message that MonEnter, MonLeave, MonWait or MonSignal sends.
abbrev pub message : Request → MonMsg
message enters = mon_enter
message leaves = mon_leave
message (waits c) = mon_wait (pos c)
message (signals c) = mon_signal (pos c)

abbrev pub step : ℕ × Request → Hoare → Hoare × Replies
step (pid, enters) a = enter pid a
step (pid, leaves) a = leave pid a
step (pid, waits c) a = wait pid c a
step (pid, signals c) a = signal pid c a

unfoldable pub run : List (ℕ × Request) → Hoare → Hoare × Replies
run [] a = (a, [])
run (r ∷ rs) a = let (b, out) = step r a in let (c, later) = run rs b in (c, out ++ later)

-- No queue holds two processes when a request comes.
abbrev pub StaysSparse : List (ℕ × Request) → Hoare → Type 0
StaysSparse [] a = Unit
StaysSparse (r ∷ rs) a = IsSparse a × StaysSparse rs (step r a).0

abbrev pub messages : List (ℕ × Request) → List (ℕ × Option MonMsg)
messages = map λ (pid, r). (pid, some (message r))

module _ (idx : ℕ → ℕ) (ns : ℕ → List ℕ) (f : ℕ) (fs : List ℕ) (p : Pool) (m : Monitor) (a : Hoare)
    (g : Agrees idx ns (f ∷ fs) p m a) where
  step_refines :
      (pid : ℕ) (r : Request)
      → IsSparse a
      → Ends
          (Answers idx (length fs) (step (pid, r) a))
          (serve m pid (message r).type (message r).arg p)
  unfolding serve
  step_refines pid enters sparse = enter_refines idx ns f fs p m a g pid
  step_refines pid leaves sparse = leave_refines idx ns f fs p m a g pid sparse
  step_refines pid (waits c) sparse = wait_refines idx ns f fs p m a g pid c sparse
  step_refines pid (signals c) sparse = signal_refines idx ns f fs p m a g pid c sparse

-- From a state that stands for a Hoare monitor, with as many free nodes as requests and no queue
-- that holds two processes when a request comes, the server ends the run of requests with no
-- fault, with the replies of the monitor in order, in a state that stands for the monitor's.
pub run_refines :
    (idx : ℕ → ℕ) (rs : List (ℕ × Request)) (ns : ℕ → List ℕ) (fs : List ℕ) (p : Pool) (m : Monitor)
    (a : Hoare)
    → Agrees idx ns fs p m a
    → StaysSparse rs a
    → length rs ≤ length fs
    → Ends (Answers idx 0 (run rs a)) (mon_server m (messages rs) p)
unfolding mon_server run
run_refines idx [] ns fs p m a g sparse room = (ns, fs, g, refl, omega arith)
run_refines idx (r ∷ rs) ns [] p m a g sparse room = absurd (omega arith)
run_refines idx ((pid, r) ∷ rs) ns (f ∷ fs) p m a g sparse room =
    Ends-bind (Answers idx (length fs) (step (pid, r) a)) (Answers idx 0 (run ((pid, r) ∷ rs) a))
      (serve m pid (message r).type (message r).arg p) _
      (step_refines idx ns f fs p m a g pid r sparse.0)
      λ (m', out) q (ns', fs', g', same, left).
        Ends-bind (Answers idx 0 (run rs (step (pid, r) a).0))
          (Answers idx 0 (run ((pid, r) ∷ rs) a)) (mon_server m' (messages rs) q)
          (λ (m'', later). pure (m'', out ++ later))
          (run_refines idx rs ns' fs' q m' (step (pid, r) a).0 g' sparse.1 (omega arith))
          λ (m'', later) q' (ns'', fs'', g'', same', left').
            (ns'', fs'', g'', cc (same, same'), left')
