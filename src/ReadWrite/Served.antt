-- ===== src/ReadWrite/Served.antt =====
-- A process inside a procedure to which MonServer has replied owns the monitor.
use monitors_and_ipc.Prelude.{
  ℕ, ◌+◌, ◌≤◌, ◌≡◌, refl, ap, false, ◌==◌, Option, none, some, List, length, ◌∷◌, pos,
  if◌then◌else◌, arith, Bool-cases, inl, inr,
}
use monitors_and_ipc.NodePool.{Run, done, fault, out_of_fuel}
use monitors_and_ipc.NodePool.Shape.{Ends}
use monitors_and_ipc.Monitor.{Monitor, Replies}
use monitors_and_ipc.Monitor.Hoare.{Hoare}
use monitors_and_ipc.Monitor.Init.{fresh}
use monitors_and_ipc.Monitor.Run.{Request, run, StaysSparse}
use monitors_and_ipc.Monitor.Server.{server_refines, Serves}
use monitors_and_ipc.ReadWrite.{
  Place, resting, reading, writing, enters_start_read, waits_start_read, signals_start_read,
  enters_stop_read, signals_stop_read, enters_start_write, waits_start_write, enters_stop_write,
  signals_stop_write, HasReply, count_of, to_server,
}
use monitors_and_ipc.ReadWrite.Places.{sits, is_outside}
use monitors_and_ipc.ReadWrite.Queued.{Sound, SoundIn}
use monitors_and_ipc.ReadWrite.Replies.{queued, run-queued, count_of-messages}

-- The one queue of a process inside a procedure.
sits_one :
    (x : Place)
    → is_outside x ≡ false
    → (if sits x 0 then 1 else 0)
        + (if sits x 1 then 1 else 0)
        + (if sits x 2 then 1 else 0)
        + (if sits x 3 then 1 else 0)
      ≡ 1
sits_one resting e = absurd (cc)
sits_one reading e = absurd (cc)
sits_one writing e = absurd (cc)
sits_one enters_start_read e = refl
sits_one waits_start_read e = refl
sits_one signals_start_read e = refl
sits_one enters_stop_read e = refl
sits_one signals_stop_read e = refl
sits_one enters_start_write e = refl
sits_one waits_start_write e = refl
sits_one enters_stop_write e = refl
sits_one signals_stop_write e = refl

unqueued_owns :
    (o : Option ℕ) (a : Hoare) (at : ℕ → Place) (pid : ℕ)
    → Sound o a.waiting at
    → is_outside (at pid) ≡ false
    → queued pid a ≡ 0
    → o ≡ some pid
unqueued_owns none a at pid h into z =
    absurd (omega (arith, h pid 0, h pid 1, h pid 2, h pid 3, sits_one (at pid) into))
unqueued_owns (some o) a at pid h into z = elim (Bool-cases (o == pid)) [
  | inl same ↦ (let i : o ≡ pid = ground (arith, same) in ap some i)
  | inr off ↦ absurd (
      omega
        (arith, h.0 pid 0 off, h.0 pid 1 off, h.0 pid 2 off, h.0 pid 3 off, sits_one (at pid) into))
]

-- A run with the replies of the Hoare monitor, and as many to a process as it has sent messages.
heard_all :
    (sender pid : ℕ) (rs : List (ℕ × Request)) (r : Run (Monitor × Replies))
    → Ends (Serves 2 sender rs) r
    → Ends (λ (m, out) q. count_of pid out ≡ count_of pid (to_server sender rs)) r
    → count_of pid (run rs (fresh 2)).1 ≡ count_of pid rs
heard_all sender pid rs (done (m, out) q) same each =
    let replies : count_of pid out ≡ count_of pid ((sender, pos 0) ∷ (run rs (fresh 2)).1) =
      ap (count_of pid) same in
    omega (arith, replies, each, count_of-messages pid rs)
heard_all sender pid rs fault same each = absurd same
heard_all sender pid rs out_of_fuel same each = absurd same

-- With a reply for each of its messages, a process stands in no queue of the monitor.
unqueued :
    (sender pid : ℕ) (rs : List (ℕ × Request))
    → StaysSparse rs (fresh 2)
    → length rs ≤ 1000
    → HasReply sender pid rs
    → queued pid (run rs (fresh 2)).0 ≡ 0
unqueued sender pid rs sparse room heard = omega (
  arith,
  heard_all sender pid rs _ (server_refines 2 sender rs (omega arith) sparse room) heard,
  run-queued pid rs (fresh 2) refl,
)

pub replied_owns :
    (sender pid : ℕ) (rs : List (ℕ × Request)) (at : ℕ → Place)
    → SoundIn (run rs (fresh 2)).0 at
    → StaysSparse rs (fresh 2)
    → length rs ≤ 1000
    → HasReply sender pid rs
    → is_outside (at pid) ≡ false
    → (run rs (fresh 2)).0.owner ≡ some pid
replied_owns sender pid rs at h sparse room heard into =
    unqueued_owns _ (run rs (fresh 2)).0 at pid h into (unqueued sender pid rs sparse room heard)
