-- ===== src/Monitor.antt =====
-- a2-phase2/Monitor.c: the monitor server, one handler for each kind of message, over the lists of
-- NodePool. PIDs are numbers, and `none` is the -1 of `current_owner`; a queue holds the PID that the
-- malloc'd cell of the source holds, and malloc does not fail. Receive and Reply belong to the
-- kernel: the messages come as a list, and a handler returns its replies in order.
pub mod Hoare
pub mod Agree
pub mod Grant
pub mod Refine
pub mod Signal
pub mod Crowded
pub mod Run
pub mod Init
pub mod Server
pub mod Idle
mod Tests
use monitors_and_ipc.Prelude.{
  ℕ, zero, suc, Bool, true, false, ◌&&◌, Option, none, some, List, [], ◌∷◌, ◌++◌, ◌==◌, ltb,
  if◌then◌else◌, update, ℤ, pos, negsuc, minus_one,
}
use monitors_and_ipc.NodePool.{Item, Cmd, deref, pure, ◌>>=◌, ◌>>◌}
use monitors_and_ipc.NodePool.Alloc.{list_create}
use monitors_and_ipc.NodePool.Add.{list_append}
use monitors_and_ipc.NodePool.Move.{list_count, list_first}
use monitors_and_ipc.NodePool.Remove.{list_remove}

abbrev pub max_conds : ℕ
max_conds = 8

pub record MonMsg : Type 0 where
  pub type : ℤ
  pub arg : ℤ

-- The static variables of Monitor.c. A queue is an index of a LIST, or NULL before MonInit.
pub record Monitor : Type 0 where
  pub monitor_locked : Bool
  pub current_owner : Option ℕ
  pub entry_queue : Option ℕ
  pub urgent_queue : Option ℕ
  pub condition_queues : ℕ → Option ℕ
  pub num_conditions : ℤ

-- `Reply(pid, &reply, …)`.
abbrev pub Replies : Type 0
Replies = List (ℕ × ℤ)

abbrev pub owns : Option ℕ → ℕ → Bool
owns none pid = false
owns (some owner) pid = owner == pid

-- `arg >= 0 && arg < num_conditions`.
abbrev pub is_condition : ℤ → ℤ → Bool
is_condition (pos c) (pos n) = ltb c n
is_condition _ _ = false

-- The index of a condition that passed the test.
abbrev pub index_of : ℤ → ℕ
index_of (pos c) = c
index_of (negsuc c) = 0

-- `ListCount(queue) > 0`.
abbrev pub is_positive : ℤ → Bool
is_positive (pos zero) = false
is_positive (pos (suc n)) = true
is_positive (negsuc n) = false

-- ListFirst, the PID that it finds, and ListRemove.
unfoldable pub next_waiting : Option ℕ → Cmd ℕ
next_waiting queue = do item ← list_first queue; pid ← deref item; list_remove queue; pure pid

abbrev pub granted : ℕ → Monitor → Monitor
granted pid m = record m { monitor_locked = true; current_owner = some pid }

abbrev pub released : Monitor → Monitor
released m = record m { monitor_locked = false; current_owner = none }

-- The first process of the queue gets the monitor, and a reply.
unfoldable pub grant_next : Option ℕ → Monitor → Cmd (Monitor × Replies)
grant_next queue m = do pid ← next_waiting queue; pure (granted pid m, (pid, pos 0) ∷ [])

-- The monitor goes to the first process of the urgent queue, else of the entry queue.
unfoldable pub hand_on : Monitor → Cmd (Monitor × Replies)
hand_on m = do
  urgent ← list_count m.urgent_queue
  if is_positive urgent then grant_next m.urgent_queue m else (do
    entry ← list_count m.entry_queue
    if is_positive entry then grant_next m.entry_queue m else pure (m, []))

unfoldable pub on_enter : Monitor → ℕ → Cmd (Monitor × Replies)
on_enter m sender =
    if m.monitor_locked
    then (do list_append m.entry_queue (some sender); pure (m, []))
    else pure (granted sender m, (sender, pos 0) ∷ [])

unfoldable pub on_leave : Monitor → ℕ → Cmd (Monitor × Replies)
on_leave m sender =
    if owns m.current_owner sender
    then (do (m', replies) ← hand_on (released m); pure (m', (sender, pos 0) ∷ replies))
    else pure (m, (sender, minus_one) ∷ [])

unfoldable pub on_wait : Monitor → ℕ → ℤ → Cmd (Monitor × Replies)
on_wait m sender arg =
    if owns m.current_owner sender && is_condition arg m.num_conditions
    then (do list_append (m.condition_queues (index_of arg)) (some sender); hand_on (released m))
    else pure (m, (sender, minus_one) ∷ [])

-- The first process of the condition's queue gets the monitor, and the sender goes to the urgent
-- queue; its reply waits.
unfoldable pub wake_next : (queue urgent : Option ℕ) → Monitor → ℕ → Cmd (Monitor × Replies)
wake_next queue urgent m sender = do
  pid ← next_waiting queue
  list_append urgent (some sender)
  pure (record m { current_owner = some pid }, (pid, pos 0) ∷ [])

unfoldable pub on_signal : Monitor → ℕ → ℤ → Cmd (Monitor × Replies)
on_signal m sender arg =
    if owns m.current_owner sender && is_condition arg m.num_conditions
    then (do
      count ← list_count (m.condition_queues (index_of arg))
      if is_positive count
          then wake_next (m.condition_queues (index_of arg)) m.urgent_queue m sender
          else pure (m, (sender, pos 0) ∷ []))
    else pure (m, (sender, minus_one) ∷ [])

-- `if (queue == NULL) queue = ListCreate();`
abbrev pub create_once : Option ℕ → Cmd (Option ℕ)
create_once none = list_create
create_once (some l) = pure (some l)

-- The loop over the condition queues from `i` on, `rounds` of them.
unfoldable pub create_conditions : ℕ → ℕ → (ℕ → Option ℕ) → Cmd (ℕ → Option ℕ)
create_conditions zero i queues = pure queues
create_conditions (suc rounds) i queues = do
  queue ← create_once (queues i)
  create_conditions rounds (suc i) (update queues i queue)

-- `(arg > MAX_CONDS) ? MAX_CONDS : arg`.
abbrev pub at_most_max : ℤ → ℤ
at_most_max (pos n) = if ltb max_conds n then pos max_conds else pos n
at_most_max (negsuc n) = negsuc n

unfoldable pub on_init : Monitor → ℕ → ℤ → Cmd (Monitor × Replies)
on_init m sender arg = do
  let num = at_most_max arg
  entry ← create_once m.entry_queue
  urgent ← create_once m.urgent_queue
  conditions ← create_conditions (index_of num) 0 m.condition_queues
  pure (
    record m {
      num_conditions = num;
      entry_queue = entry;
      urgent_queue = urgent;
      condition_queues = conditions;
    },
    (sender, pos 0) ∷ [],
  )

-- One message: `switch (msg->type)`.
unfoldable pub serve : Monitor → ℕ → ℤ → ℤ → Cmd (Monitor × Replies)
serve m sender (pos (suc zero)) arg = on_enter m sender
serve m sender (pos (suc (suc zero))) arg = on_leave m sender
serve m sender (pos (suc (suc (suc zero)))) arg = on_wait m sender arg
serve m sender (pos (suc (suc (suc (suc zero))))) arg = on_signal m sender arg
serve m sender (pos (suc (suc (suc (suc (suc zero)))))) arg = on_init m sender arg
serve m sender _ arg = pure (m, (sender, minus_one) ∷ [])

-- `while (1)`, over the messages that Receive returns; a NULL message is passed over.
unfoldable pub mon_server : Monitor → List (ℕ × Option MonMsg) → Cmd (Monitor × Replies)
mon_server m [] = pure (m, [])
mon_server m ((sender, none) ∷ rest) = mon_server m rest
mon_server m ((sender, some msg) ∷ rest) = do
  (m', replies) ← serve m sender msg.type msg.arg
  (m'', later) ← mon_server m' rest
  pure (m'', replies ++ later)

-- The messages that the client's procedures send.
abbrev pub mon_enter : MonMsg
mon_enter = record { type = pos 1; arg = pos 0 }

abbrev pub mon_leave : MonMsg
mon_leave = record { type = pos 2; arg = pos 0 }

abbrev pub mon_wait : ℤ → MonMsg
mon_wait cond = record { type = pos 3; arg = cond }

abbrev pub mon_signal : ℤ → MonMsg
mon_signal cond = record { type = pos 4; arg = cond }

abbrev pub mon_init : ℤ → MonMsg
mon_init num_conds = record { type = pos 5; arg = num_conds }

-- The static variables as Monitor.c defines them.
pub initial_monitor : Monitor
initial_monitor = record {
  monitor_locked = false;
  current_owner = none;
  entry_queue = none;
  urgent_queue = none;
  condition_queues = λ c. none;
  num_conditions = pos 0;
}
