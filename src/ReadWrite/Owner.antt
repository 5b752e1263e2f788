-- ===== src/ReadWrite/Owner.antt =====
-- What the owner of the monitor does keeps the invariant.
use monitors_and_ipc.Prelude.{
  ℕ, zero, suc, ◌≡◌, ◌∙◌, inl, inr, refl, ap, subst, Bool, true, false, not, ◌||◌, is_zero, update,
  arith, Bool-cases, Option, none, some,
}
use monitors_and_ipc.Monitor.Run.{leaves, waits}
use monitors_and_ipc.ReadWrite.{
  Place, resting, reading, writing, enters_start_read, waits_start_read, signals_start_read,
  enters_stop_read, signals_stop_read, enters_start_write, waits_start_write, enters_stop_write,
  signals_stop_write, Chunk, chunk, go_on, start_read,
}
use monitors_and_ipc.ReadWrite.Ideal.{Ideal, ideal_chunk}
use monitors_and_ipc.ReadWrite.Places.{is_outside, Ready}
use monitors_and_ipc.ReadWrite.Queued.{OwnerReady}
use monitors_and_ipc.ReadWrite.Tally.{is_reader, is_writer, Tally, same-Tally, unwrite-Tally}
use monitors_and_ipc.ReadWrite.Steps.{
  IsRoom, ready_if, becomes, leaves-IsRoom, waits-IsRoom, signals-IsRoom, reads-IsRoom,
  writes-IsRoom, stops-IsRoom,
}

both_clear : (n : ℕ) (b : Bool) → (not (is_zero n) || b) ≡ false → (n ≡ 0) × (b ≡ false)
both_clear zero b e = (refl, e)
both_clear (suc n) b e = absurd (ground (arith, e))

abbrev has_chunk : Option Chunk → Bool
has_chunk none = false
has_chunk (some c) = true

pub nothing_to_do : (c : Chunk) → ◌≡◌ {A = Option Chunk} none (some c) → ⊥
nothing_to_do c e = ground (arith, ap has_chunk e)

module _ (s : Ideal) (h : IsRoom s) (pid : ℕ) (o : s.monitor.owner ≡ some pid) where
  ready_at : (p : Place) → s.at pid ≡ p → Ready p s.num_readers s.busy_writing
  ready_at p at =
      subst (λ x. Ready x s.num_readers s.busy_writing) at
        (subst (λ r. OwnerReady r s.at s.num_readers s.busy_writing) o h.queues.1)

  same_place :
      (p x : Place)
      → s.at pid ≡ p
      → is_reader p ≡ is_reader x
      → is_writer p ≡ is_writer x
      → Tally s.num_readers s.busy_writing (update s.at pid x)
  same_place p x at e f =
      same-Tally s.num_readers s.busy_writing s.at h.tally pid x (ap is_reader at ∙ e)
        (ap is_writer at ∙ f)

  start-IsRoom :
      (c : Chunk)
      → s.at pid ≡ enters_start_read
      → go_on enters_start_read s.num_readers s.busy_writing ≡ some c
      → IsRoom (ideal_chunk pid c s)
  unfolding go_on
  start-IsRoom c at g = elim (Bool-cases s.busy_writing) [
    | inl busy ↦ becomes s h pid c (rw busy at g) (
        subst (λ b. IsRoom (ideal_chunk pid (chunk s.num_readers b (waits 0) waits_start_read) s))
          busy
          (waits-IsRoom s h pid o s.num_readers s.busy_writing waits_start_read
            (same_place enters_start_read waits_start_read at refl refl) 0 refl refl))
    | inr idle ↦ becomes s h pid c (rw idle at g) (
        subst (λ b. IsRoom (ideal_chunk pid (start_read s.num_readers b) s)) idle
          (reads-IsRoom s h pid o idle (ap is_reader at) (ap is_writer at)))
  ]

  write-IsRoom :
      (c : Chunk)
      → s.at pid ≡ enters_start_write
      → go_on enters_start_write s.num_readers s.busy_writing ≡ some c
      → IsRoom (ideal_chunk pid c s)
  unfolding go_on
  write-IsRoom c at g = elim (Bool-cases (not (is_zero s.num_readers) || s.busy_writing)) [
    | inl taken ↦ becomes s h pid c (rw taken at g) (
        waits-IsRoom s h pid o s.num_readers s.busy_writing waits_start_write
          (same_place enters_start_write waits_start_write at refl refl) 1 refl refl)
    | inr clear ↦
        let (empty, idle) = both_clear s.num_readers s.busy_writing clear in
        becomes s h pid c (rw clear at g) (writes-IsRoom s h pid o idle empty (ap is_reader at))
  ]

  end-IsRoom :
      (c : Chunk)
      → s.at pid ≡ enters_stop_write
      → go_on enters_stop_write s.num_readers s.busy_writing ≡ some c
      → IsRoom (ideal_chunk pid c s)
  unfolding go_on
  end-IsRoom c at g = becomes s h pid c g (
      signals-IsRoom s h pid o s.num_readers false signals_stop_write
        (unwrite-Tally s.num_readers s.busy_writing s.at h.tally pid signals_stop_write
          (ap is_writer at) (ap is_reader at) refl refl)
        0 refl refl
        (λ y into. ready_if y 0 s.num_readers false into refl (λ k. absurd (omega arith))))

  -- Behind the last message of a procedure, the process leaves.
  last-IsRoom :
      (p x : Place) (c : Chunk)
      → s.at pid ≡ p
      → some (chunk s.num_readers s.busy_writing leaves x) ≡ some c
      → is_reader p ≡ is_reader x
      → is_writer p ≡ is_writer x
      → is_outside x ≡ true
      → IsRoom (ideal_chunk pid c s)
  last-IsRoom p x c at g e f out =
      becomes s h pid c g
        (leaves-IsRoom s h pid o s.num_readers s.busy_writing x (same_place p x at e f) out)

  pub go-IsRoom :
      (p : Place) (c : Chunk)
      → s.at pid ≡ p
      → go_on p s.num_readers s.busy_writing ≡ some c
      → IsRoom (ideal_chunk pid c s)
  unfolding go_on
  go-IsRoom resting c at g = absurd (nothing_to_do c g)
  go-IsRoom reading c at g = absurd (nothing_to_do c g)
  go-IsRoom writing c at g = absurd (nothing_to_do c g)
  go-IsRoom enters_start_read c at g = start-IsRoom c at g
  go-IsRoom waits_start_read c at g =
      becomes s h pid c g
        (reads-IsRoom s h pid o (ready_at waits_start_read at) (ap is_reader at) (ap is_writer at))
  go-IsRoom signals_start_read c at g = last-IsRoom signals_start_read reading c at g refl refl refl
  go-IsRoom enters_stop_read c at g = stops-IsRoom s h pid o at c g
  go-IsRoom signals_stop_read c at g = last-IsRoom signals_stop_read resting c at g refl refl refl
  go-IsRoom enters_start_write c at g = write-IsRoom c at g
  go-IsRoom waits_start_write c at g =
      (let (idle, empty) = ready_at waits_start_write at in
        becomes s h pid c g (writes-IsRoom s h pid o idle empty (ap is_reader at)))
  go-IsRoom enters_stop_write c at g = end-IsRoom c at g
  go-IsRoom signals_stop_write c at g = last-IsRoom signals_stop_write resting c at g refl refl refl
