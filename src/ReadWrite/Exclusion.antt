-- ===== src/ReadWrite/Exclusion.antt =====
-- Readers and writers exclude each other.
use monitors_and_ipc.Prelude.{
  ℕ, ◌≤◌, ◌≡◌, ◌∙◌, inl, inr, refl, ap, sym, subst, Bool, true, false, ◌==◌, [], ◌∷◌, ◌++◌, List,
  length, length-append, arith, Bool-cases, some,
}
use monitors_and_ipc.Monitor.Init.{fresh}
use monitors_and_ipc.Monitor.Run.{Request, enters, StaysSparse, run}
use monitors_and_ipc.ReadWrite.{
  Place, resting, reading, writing, enters_start_read, waits_start_read, signals_start_read,
  enters_stop_read, signals_stop_read, enters_start_write, waits_start_write, enters_stop_write,
  signals_stop_write, Room, Chunk, go_on, calls_in, after_chunk, Step, calls_start_read,
  calls_stop_read, calls_start_write, calls_stop_write, goes_on, Trace, starts, then_steps,
}
use monitors_and_ipc.ReadWrite.Ideal.{ideal}
use monitors_and_ipc.ReadWrite.Places.{sits, is_outside}
use monitors_and_ipc.ReadWrite.Tally.{
  is_reader, is_writer, Readers, some_reader, only_writer, nobody_writes,
}
use monitors_and_ipc.ReadWrite.Steps.{IsRoom, calls-IsRoom}
use monitors_and_ipc.ReadWrite.Owner.{go-IsRoom, nothing_to_do}
use monitors_and_ipc.ReadWrite.Replies.{run-append, StaysSparse-append}
use monitors_and_ipc.ReadWrite.Served.{replied_owns}

-- Up to 1000 messages, no queue of the monitor holding two processes when one of them comes.
abbrev pub HasRoom : List (ℕ × Request) → Type 0
HasRoom rs = StaysSparse rs (fresh 2) × (length rs ≤ 1000)

HasRoom-append : (rs : List (ℕ × Request)) (r : ℕ × Request) → HasRoom (rs ++ r ∷ []) → HasRoom rs
HasRoom-append rs r (sparse, few) =
    (StaysSparse-append rs r (fresh 2) sparse, omega (arith, few, length-append rs (r ∷ [])))

-- A call of one of the procedures.
call_keeps :
    (s : Room) (pid : ℕ) (p x : Place)
    → IsRoom (ideal s)
    → s.at pid ≡ p
    → is_outside p ≡ true
    → sits x 0 ≡ true
    → is_reader p ≡ is_reader x
    → is_writer p ≡ is_writer x
    → IsRoom (ideal (calls_in pid x s))
call_keeps s pid p x h at out into e f =
    subst (λ a. IsRoom (record (ideal (calls_in pid x s)) { monitor = a }))
      (sym (run-append s.sent (pid, enters) (fresh 2)))
      (calls-IsRoom (ideal s) h pid x (ap is_outside at ∙ out) into (ap is_reader at ∙ e)
        (ap is_writer at ∙ f))

inside_if : (x : Place) (n : ℕ) (b : Bool) (c : Chunk) → go_on x n b ≡ some c → is_outside x ≡ false
unfolding go_on
inside_if resting n b c e = absurd (nothing_to_do c e)
inside_if reading n b c e = absurd (nothing_to_do c e)
inside_if writing n b c e = absurd (nothing_to_do c e)
inside_if enters_start_read n b c e = refl
inside_if waits_start_read n b c e = refl
inside_if signals_start_read n b c e = refl
inside_if enters_stop_read n b c e = refl
inside_if signals_stop_read n b c e = refl
inside_if enters_start_write n b c e = refl
inside_if waits_start_write n b c e = refl
inside_if enters_stop_write n b c e = refl
inside_if signals_stop_write n b c e = refl

go_keeps :
    (pid : ℕ) (s : Room) (c : Chunk)
    → IsRoom (ideal s)
    → (ideal s).monitor.owner ≡ some pid
    → go_on (s.at pid) s.num_readers s.busy_writing ≡ some c
    → IsRoom (ideal (after_chunk pid c s))
go_keeps pid s c h o g =
    subst (λ a. IsRoom (record (ideal (after_chunk pid c s)) { monitor = a }))
      (sym (run-append s.sent (pid, c.request) (fresh 2)))
      (go-IsRoom (ideal s) h pid o (s.at pid) c refl g)

Step-IsRoom :
    (sender pid : ℕ) (s s' : Room)
    → (HasRoom s.sent → IsRoom (ideal s))
    → Step sender pid s s'
    → HasRoom s'.sent
    → IsRoom (ideal s')
Step-IsRoom sender pid s _ h (calls_start_read at) room =
    call_keeps s pid resting enters_start_read (h (HasRoom-append s.sent _ room)) at refl refl refl
      refl
Step-IsRoom sender pid s _ h (calls_stop_read at) room =
    call_keeps s pid reading enters_stop_read (h (HasRoom-append s.sent _ room)) at refl refl refl
      refl
Step-IsRoom sender pid s _ h (calls_start_write at) room =
    call_keeps s pid resting enters_start_write (h (HasRoom-append s.sent _ room)) at refl refl refl
      refl
Step-IsRoom sender pid s _ h (calls_stop_write at) room =
    call_keeps s pid writing enters_stop_write (h (HasRoom-append s.sent _ room)) at refl refl refl
      refl
Step-IsRoom sender pid s _ h (goes_on c heard g) room =
    let before = HasRoom-append s.sent _ room in
    let good : IsRoom (ideal s) = h before in
    go_keeps pid s c good
      (replied_owns sender pid s.sent s.at good.queues.0 before.0 before.1 heard
        (inside_if (s.at pid) s.num_readers s.busy_writing c g))
      g

Trace-IsRoom : (sender : ℕ) (s : Room) → Trace sender s → HasRoom s.sent → IsRoom (ideal s)
unfolding run
Trace-IsRoom sender _ starts room = record {
  tally = record { readers = ([], refl, λ k. refl); writers = inl (refl, λ k. refl) };
  queues = (λ k q. refl, tt);
  two = refl;
}
Trace-IsRoom sender s' (then_steps pid s _ before step) room =
    Step-IsRoom sender pid s s' (Trace-IsRoom sender s before) step room

-- With MonServer as it is, in whatever order the processes call the procedures and go on once it has
-- replied to them, as long as no queue of the monitor holds two processes when a message comes, and
-- for up to 1000 messages: while one process writes, between StartWrite and StopWrite, no other
-- process writes and none reads, and numReaders is the number of the processes that read, each
-- counted once.
pub room_excludes :
    (sender : ℕ) (s : Room) (a b : ℕ)
    → Trace sender s
    → StaysSparse s.sent (fresh 2)
    → length s.sent ≤ 1000
    → (is_writer (s.at a) ≡ true → is_writer (s.at b) ≡ true → a ≡ b)
      × (is_writer (s.at a) ≡ true → is_reader (s.at b) ≡ false)
      × Readers s.num_readers s.at
room_excludes sender s a b t sparse few =
    let h = (Trace-IsRoom sender s t (sparse, few)).tally in
    (
      λ e f. elim (Bool-cases (a == b)) [
        | inl same ↦ ground (arith, same)
        | inr off ↦
            absurd (ground (arith, only_writer s.num_readers s.busy_writing s.at h a e b off, f))
      ],
      λ e. elim (Bool-cases (is_reader (s.at b))) [
        | inr off ↦ off
        | inl f ↦
            let (one, idle) = some_reader s.num_readers s.busy_writing s.at h b f in
            absurd (ground (arith, nobody_writes s.num_readers s.busy_writing s.at h a idle a, e))
      ],
      h.readers,
    )
