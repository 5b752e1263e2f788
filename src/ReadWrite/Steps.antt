-- ===== src/ReadWrite/Steps.antt =====
-- A call of a procedure, and each kind of code between two messages, keeps the invariant.
use monitors_and_ipc.Prelude.{
  ℕ, ◌+◌, ◌-◌, ◌≡◌, ◌∙◌, inl, inr, refl, ap, subst, Bool, true, false, ==_refl, is_zero, List, [],
  ◌∷◌, update, arith, Bool-cases, Option, none, some, ltb,
}
use mathlib.Core.Option.{some-injective}
use monitors_and_ipc.Monitor.{owns}
use monitors_and_ipc.Monitor.Hoare.{Hoare, pick, free, join, admit, wake}
use monitors_and_ipc.Monitor.Run.{leaves, waits, signals}
use monitors_and_ipc.ReadWrite.{
  Place, resting, reading, writing, enters_start_read, waits_start_read, signals_start_read,
  enters_stop_read, signals_stop_read, enters_start_write, waits_start_write, enters_stop_write,
  signals_stop_write, Chunk, chunk, go_on, start_read, start_write,
}
use monitors_and_ipc.ReadWrite.Ideal.{Ideal, ideal_calls, ideal_chunk}
use monitors_and_ipc.ReadWrite.Places.{sits, is_outside, Ready}
use monitors_and_ipc.ReadWrite.Queued.{
  Sound, SoundIn, Owned, OwnerReady, enter-SoundIn, leave-SoundIn, wait-SoundIn, signal-SoundIn,
}
use monitors_and_ipc.ReadWrite.Tally.{
  is_reader, is_writer, Tally, same-Tally, add-Tally, drop-Tally, write-Tally, some_reader,
}

pub record IsRoom (s : Ideal) : Type 0 where
  pub tally : Tally s.num_readers s.busy_writing s.at
  pub queues : SoundIn s.monitor s.at × OwnerReady s.monitor.owner s.at s.num_readers s.busy_writing
  pub two : s.monitor.num ≡ 2

pub pick-num : (us es : List ℕ) (a : Hoare) → (pick us es a).0.num ≡ a.num
pick-num (u ∷ us) es a = refl
pick-num [] (e ∷ es) a = refl
pick-num [] [] a = refl

pub admit-num : (o : Option ℕ) (pid : ℕ) (a : Hoare) → (admit o pid a).0.num ≡ a.num
admit-num none pid a = refl
admit-num (some o) pid a = refl

pub wake-num : (ws : List ℕ) (pid c : ℕ) (a : Hoare) → (wake ws pid c a).0.num ≡ a.num
wake-num [] pid c a = refl
wake-num (w ∷ ws) pid c a = refl

-- What a process that waits on condition `c` finds when it is signalled.
pub ready_if :
    (y : Place) (c n : ℕ) (b : Bool)
    → sits y (c + 2) ≡ true
    → b ≡ false
    → (c ≡ 1 → n ≡ 0)
    → Ready y n b
ready_if waits_start_read c n b e idle empty = idle
ready_if waits_start_write c n b e idle empty = (idle, empty (ground (arith, e)))
ready_if resting c n b e idle empty = tt
ready_if reading c n b e idle empty = tt
ready_if writing c n b e idle empty = tt
ready_if enters_start_read c n b e idle empty = tt
ready_if signals_start_read c n b e idle empty = tt
ready_if enters_stop_read c n b e idle empty = tt
ready_if signals_stop_read c n b e idle empty = tt
ready_if enters_start_write c n b e idle empty = tt
ready_if enters_stop_write c n b e idle empty = tt
ready_if signals_stop_write c n b e idle empty = tt

module _ (s : Ideal) (h : IsRoom s) (pid : ℕ) where
  pub calls-IsRoom :
      (x : Place)
      → is_outside (s.at pid) ≡ true
      → sits x 0 ≡ true
      → is_reader (s.at pid) ≡ is_reader x
      → is_writer (s.at pid) ≡ is_writer x
      → IsRoom (ideal_calls pid x s)
  calls-IsRoom x out into e f = record {
    tally = same-Tally s.num_readers s.busy_writing s.at h.tally pid x e f;
    queues =
        enter-SoundIn s.monitor.owner s.monitor s.at pid x s.num_readers s.busy_writing refl
          h.queues.0 h.queues.1 out into;
    two = admit-num s.monitor.owner pid s.monitor ∙ h.two;
  }

  pub becomes :
      {c' : Chunk} (c : Chunk)
      → ◌≡◌ {A = Option Chunk} (some c') (some c)
      → IsRoom (ideal_chunk pid c' s)
      → IsRoom (ideal_chunk pid c s)
  becomes {c'} c e r = subst (λ k. IsRoom (ideal_chunk pid k s)) (some-injective c' c e) r

  module _ (o : s.monitor.owner ≡ some pid) (n : ℕ) (b : Bool) (x : Place)
      (t : Tally n b (update s.at pid x)) where
    owned : Owned pid s.monitor.waiting s.at
    owned = subst (λ r. Sound r s.monitor.waiting s.at) o h.queues.0

    mine : owns s.monitor.owner pid ≡ true
    mine = ap (λ r. owns r pid) o ∙ ==_refl pid

    pub leaves-IsRoom : is_outside x ≡ true → IsRoom (ideal_chunk pid (chunk n b leaves x) s)
    leaves-IsRoom out = record {
      tally = t;
      queues = rw mine (leave-SoundIn s.monitor s.at pid x n b owned out);
      two = rw mine (pick-num (s.monitor.waiting 1) (s.monitor.waiting 0) (free s.monitor) ∙ h.two);
    }

    pub waits-IsRoom :
        (c : ℕ)
        → ltb c 2 ≡ true
        → sits x (c + 2) ≡ true
        → IsRoom (ideal_chunk pid (chunk n b (waits c) x) s)
    waits-IsRoom c lt into =
        let in_range : ltb c s.monitor.num ≡ true = ap (ltb c) h.two ∙ lt in
        record {
          tally = t;
          queues = rw (mine, in_range) (wait-SoundIn s.monitor s.at pid c x n b owned into);
          two = rw (mine, in_range) (pick-num _ _ (free (join (c + 2) pid s.monitor)) ∙ h.two);
        }

    pub signals-IsRoom :
        (c : ℕ)
        → ltb c 2 ≡ true
        → sits x 1 ≡ true
        → ((y : Place) → sits y (c + 2) ≡ true → Ready y n b)
        → IsRoom (ideal_chunk pid (chunk n b (signals c) x) s)
    signals-IsRoom c lt into good =
        let in_range : ltb c s.monitor.num ≡ true = ap (ltb c) h.two ∙ lt in
        record {
          tally = t;
          queues =
              rw (mine, in_range)
                (signal-SoundIn (s.monitor.waiting (c + 2)) s.monitor s.at pid c x n b refl o owned
                  into good);
          two = rw (mine, in_range) (wake-num (s.monitor.waiting (c + 2)) pid c s.monitor ∙ h.two);
        }

  module _ (o : s.monitor.owner ≡ some pid) where
    -- `numReaders++` and the signal behind it.
    pub reads-IsRoom :
        s.busy_writing ≡ false
        → is_reader (s.at pid) ≡ false
        → is_writer (s.at pid) ≡ false
        → IsRoom (ideal_chunk pid (start_read s.num_readers s.busy_writing) s)
    reads-IsRoom idle e f =
        signals-IsRoom o (s.num_readers + 1) s.busy_writing signals_start_read
          (add-Tally s.num_readers s.busy_writing s.at h.tally pid signals_start_read idle e f refl
            refl)
          0 refl refl
          (λ y into.
            ready_if y 0 (s.num_readers + 1) s.busy_writing into idle (λ k. absurd (omega arith)))

    pub writes-IsRoom :
        s.busy_writing ≡ false
        → s.num_readers ≡ 0
        → is_reader (s.at pid) ≡ false
        → IsRoom (ideal_chunk pid (start_write s.num_readers) s)
    writes-IsRoom idle empty e =
        leaves-IsRoom o s.num_readers true writing
          (write-Tally s.num_readers s.busy_writing s.at h.tally pid writing idle empty e refl refl)
          refl

    pub stops-IsRoom :
        s.at pid ≡ enters_stop_read
        → (c : Chunk) → go_on enters_stop_read s.num_readers s.busy_writing ≡ some c
        → IsRoom (ideal_chunk pid c s)
    unfolding go_on
    stops-IsRoom at c g =
        let n = s.num_readers - 1 in
        let idle =
          (some_reader s.num_readers s.busy_writing s.at h.tally pid (ap is_reader at)).1 in
        let left : (x : Place)
            → is_reader x ≡ false
            → is_writer x ≡ false
            → Tally n s.busy_writing (update s.at pid x) =
          λ x e f.
            drop-Tally s.num_readers s.busy_writing s.at h.tally pid x (ap is_reader at)
              (ap is_writer at) e f in
        elim (Bool-cases (is_zero n)) [
          | inl z ↦ becomes c (rw z at g) (
              signals-IsRoom o n s.busy_writing signals_stop_read (left signals_stop_read refl refl)
                1 refl refl
                (λ y into. ready_if y 1 n s.busy_writing into idle (λ k. ground (arith, z))))
          | inr z ↦
              becomes c (rw z at g)
                (leaves-IsRoom o n s.busy_writing resting (left resting refl refl) refl)
        ]
