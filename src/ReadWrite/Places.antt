-- ===== src/ReadWrite/Places.antt =====
-- The queue of the monitor in which a process waits, and what it relies on when it goes on.
use monitors_and_ipc.Prelude.{
  ℕ, ◌≤◌, ◌≡◌, ◌∙◌, inl, inr, refl, sym, ap, Bool, true, false, ◌==◌, if◌then◌else◌, arith,
  Bool-cases,
}
use monitors_and_ipc.ReadWrite.{
  Place, resting, reading, writing, enters_start_read, waits_start_read, signals_start_read,
  enters_stop_read, signals_stop_read, enters_start_write, waits_start_write, enters_stop_write,
  signals_stop_write,
}

-- Queue `q` is the one in which a process at this place waits for its reply.
abbrev pub sits : Place → ℕ → Bool
sits resting q = false
sits reading q = false
sits writing q = false
sits enters_start_read q = q == 0
sits enters_stop_read q = q == 0
sits enters_start_write q = q == 0
sits enters_stop_write q = q == 0
sits signals_start_read q = q == 1
sits signals_stop_read q = q == 1
sits signals_stop_write q = q == 1
sits waits_start_read q = q == 2
sits waits_start_write q = q == 3

abbrev pub is_outside : Place → Bool
is_outside resting = true
is_outside reading = true
is_outside writing = true
is_outside enters_start_read = false
is_outside enters_stop_read = false
is_outside enters_start_write = false
is_outside enters_stop_write = false
is_outside signals_start_read = false
is_outside signals_stop_read = false
is_outside signals_stop_write = false
is_outside waits_start_read = false
is_outside waits_start_write = false

pub outside_sits : (x : Place) (q : ℕ) → is_outside x ≡ true → sits x q ≡ false
outside_sits resting q e = refl
outside_sits reading q e = refl
outside_sits writing q e = refl
outside_sits enters_start_read q e = absurd (ground (arith, e))
outside_sits enters_stop_read q e = absurd (ground (arith, e))
outside_sits enters_start_write q e = absurd (ground (arith, e))
outside_sits enters_stop_write q e = absurd (ground (arith, e))
outside_sits signals_start_read q e = absurd (ground (arith, e))
outside_sits signals_stop_read q e = absurd (ground (arith, e))
outside_sits signals_stop_write q e = absurd (ground (arith, e))
outside_sits waits_start_read q e = absurd (ground (arith, e))
outside_sits waits_start_write q e = absurd (ground (arith, e))

-- A process sits in one queue at most.
pub sits_once : (x : Place) (q r : ℕ) → sits x q ≡ true → sits x r ≡ true → q ≡ r
sits_once resting q r e f = absurd (ground (arith, e))
sits_once reading q r e f = absurd (ground (arith, e))
sits_once writing q r e f = absurd (ground (arith, e))
sits_once enters_start_read q r e f = ground (arith, e, f)
sits_once enters_stop_read q r e f = ground (arith, e, f)
sits_once enters_start_write q r e f = ground (arith, e, f)
sits_once enters_stop_write q r e f = ground (arith, e, f)
sits_once signals_start_read q r e f = ground (arith, e, f)
sits_once signals_stop_read q r e f = ground (arith, e, f)
sits_once signals_stop_write q r e f = ground (arith, e, f)
sits_once waits_start_read q r e f = ground (arith, e, f)
sits_once waits_start_write q r e f = ground (arith, e, f)

pub inside_of : (x : Place) (r : ℕ) → sits x r ≡ true → is_outside x ≡ false
inside_of x r e = elim (Bool-cases (is_outside x)) [
  | inl out ↦ absurd (ground (arith, outside_sits x r out, e))
  | inr into ↦ into
]

pub not_there :
    (x : Place) (r q : ℕ)
    → (r == q) ≡ false
    → sits x r ≡ true
    → ◌≡◌ {A = ℕ} (if sits x q then 1 else 0) 0
not_there x r q apart sat = elim (Bool-cases (sits x q)) [
  | inl e ↦ absurd (ground (arith, sits_once x r q sat e, apart))
  | inr e ↦ rw e refl
]

-- What the owner finds when it goes on: a reader that was signalled, no writer; a writer, nobody.
abbrev pub Ready : Place → ℕ → Bool → Type 0
Ready waits_start_read n b = b ≡ false
Ready waits_start_write n b = (b ≡ false) × (n ≡ 0)
Ready resting n b = Unit
Ready reading n b = Unit
Ready writing n b = Unit
Ready enters_start_read n b = Unit
Ready enters_stop_read n b = Unit
Ready enters_start_write n b = Unit
Ready enters_stop_write n b = Unit
Ready signals_start_read n b = Unit
Ready signals_stop_read n b = Unit
Ready signals_stop_write n b = Unit

pub ready_of : (x : Place) (r n : ℕ) (b : Bool) → r ≤ 1 → sits x r ≡ true → Ready x n b
ready_of waits_start_read r n b le e = absurd (ground (arith, e))
ready_of waits_start_write r n b le e = absurd (ground (arith, e))
ready_of resting r n b le e = tt
ready_of reading r n b le e = tt
ready_of writing r n b le e = tt
ready_of enters_start_read r n b le e = tt
ready_of enters_stop_read r n b le e = tt
ready_of enters_start_write r n b le e = tt
ready_of enters_stop_write r n b le e = tt
ready_of signals_start_read r n b le e = tt
ready_of signals_stop_read r n b le e = tt
ready_of signals_stop_write r n b le e = tt

pub sits_at :
    (x : Place) (r q : ℕ)
    → sits x r ≡ true
    → ◌≡◌ {A = ℕ} (if sits x q then 1 else 0) (if r == q then 1 else 0)
sits_at x r q e = elim (Bool-cases (r == q)) [
  | inl same ↦
      (let k : r ≡ q = ground (arith, same) in
        let f : sits x q ≡ true = ap (sits x) (sym k) ∙ e in rw (f, same) refl)
  | inr off ↦ rw off (not_there x r q off e)
]
