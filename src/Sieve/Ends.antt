-- ===== src/Sieve/Ends.antt =====
-- The steps of all processes of primes together come to an end.
use monitors_and_ipc.Prelude.{
  ℕ, zero, suc, ◌+◌, ◌-◌, ◌*◌, ◌≡◌, ◌⊎◌, inl, inr, refl, sym, ap, subst, true, false, Option, none,
  some, List, [], ◌∷◌, ◌++◌, leb, length, length-append, if◌then◌else◌, arith, Bool-cases,
  Option-cases, ◌<◌, ◌≤◌,
}
use mathlib.Core.Option.{some-injective}
use monitors_and_ipc.Sieve.{
  Chain, starting, ended, stage, is_ended, Moved, chain_step, capacity, Main, writes, waits, exited,
  System, is_open, booted, main_step, after_move, step, or_stay, run,
}
use monitors_and_ipc.Sieve.Output.{IsDrained}
use monitors_and_ipc.Sieve.Primes.{from_to, length-from_to}
use monitors_and_ipc.Sieve.Runs.{
  booted-IsRun, to_write, closed_rest, primes_to, all_printed, run-IsRun, no_system,
}
use monitors_and_ipc.Sieve.Progress.{chain-Falls, chain-CanStep, CanStep, open_goes_on, turns, work}

-- What main has yet to do, in steps.
abbrev pub own_work : ℕ → Main → ℕ
own_work last (writes i) = 2 + (suc last - i)
own_work last waits = 1
own_work last exited = 0

-- A bound on the steps that a system still makes.
abbrev pub all_work : ℕ → System → ℕ
all_work last s =
    own_work last s.main + work (length s.pipe + length (to_write last s.main)) s.chain

moved-falls :
    (last : ℕ) (s s' : System) (r : Option Moved) (k : ℕ)
    → chain_step (is_open s.main) k s.pipe s.chain ≡ r
    → after_move s r ≡ some s'
    → all_work last s' < all_work last s
moved-falls last s s' none k e f = absurd (no_system f)
moved-falls last s s' (some m) k e f =
    let falls =
      chain-Falls (is_open s.main) k s.pipe s.chain m e (length (to_write last s.main))
        (λ shut. ap length (closed_rest last s.main shut)) in
    subst (λ t. all_work last t < all_work last s) (some-injective _ s' f) (omega (arith, falls))

write-falls :
    (last i : ℕ) (s s' : System)
    → main_step last (writes i) s ≡ some s'
    → all_work last s' < all_work last (record s { main = writes i })
write-falls last i s s' f = elim (Bool-cases (leb i last)) [
  | inl more ↦ elim (Bool-cases (leb capacity (length s.pipe))) [
    | inl full ↦ absurd (no_system (rw (more, full) at f))
    | inr room ↦
        let le : i ≤ last = ground (arith, more) in
        let same : length (s.pipe ++ i ∷ []) + length (from_to (suc last - suc i) (suc i))
            ≡ length s.pipe + length (from_to (suc last - i) i) =
          omega (
            arith,
            le,
            length-append s.pipe (i ∷ []),
            length-from_to (suc last - i) i,
            length-from_to (suc last - suc i) (suc i),
          ) in
        subst (λ t. all_work last t < all_work last (record s { main = writes i }))
          (some-injective _ s' (rw (more, room) at f))
          (omega (arith, le, ap (λ n. work n s.chain) same))
  ]
  | inr done ↦
      let past : last < i = ground (arith, done) in
      let same : length s.pipe + 0 ≡ length s.pipe + length (from_to (suc last - i) i) =
        omega (arith, past, length-from_to (suc last - i) i) in
      subst (λ t. all_work last t < all_work last (record s { main = writes i }))
        (some-injective _ s' (rw done at f)) (omega (arith, ap (λ n. work n s.chain) same))
]

exit-falls :
    (last : ℕ) (s s' : System) (c : Chain)
    → (if is_ended c then some (record s { main = exited }) else none) ≡ some s'
    → all_work last s' < all_work last (record s { main = waits })
exit-falls last s s' starting f = absurd (no_system f)
exit-falls last s s' (stage phase p q c) f = absurd (no_system f)
exit-falls last s s' ended f =
    subst (λ t. all_work last t < all_work last (record s { main = waits })) (some-injective _ s' f)
      (omega arith)

main-falls :
    (last : ℕ) (m : Main) (s s' : System)
    → main_step last m s ≡ some s'
    → all_work last s' < all_work last (record s { main = m })
main-falls last (writes i) s s' f = write-falls last i s s' f
main-falls last waits s s' f = exit-falls last s s' s.chain f
main-falls last exited s s' f = absurd (no_system f)

step-falls :
    (last k : ℕ) (s s' : System) → step last k s ≡ some s' → all_work last s' < all_work last s
unfolding step
step-falls last zero s s' e = main-falls last s.main s s' e
step-falls last (suc k) s s' e = moved-falls last s s' _ k refl e

-- The steps of a schedule in which the process was not blocked.
abbrev pub count_step : (s : System) → Option System → ℕ
count_step s none = 0
count_step s (some s') = 1

unfoldable pub steps_taken : (last : ℕ) → List ℕ → System → ℕ
steps_taken last [] s = 0
steps_taken last (k ∷ ks) s =
    count_step s (step last k s) + steps_taken last ks (or_stay s (step last k s))

steps_taken_le : (last : ℕ) (ks : List ℕ) (s : System) → steps_taken last ks s ≤ all_work last s
unfolding steps_taken
steps_taken_le last [] s = omega arith
steps_taken_le last (k ∷ ks) s = elim (Option-cases (step last k s)) [
  | inl off ↦ rw off (omega (arith, steps_taken_le last ks s))
  | inr (s', e) ↦ rw e (omega (arith, steps_taken_le last ks s', step-falls last k s s' e))
]

turns_closed : (n : ℕ) → turns n ≡ n * n + 3 * n + 1
unfolding turns
turns_closed zero = refl
turns_closed (suc n) = omega (arith, turns_closed n)

-- Some process of the system can step.
abbrev pub IsLive : ℕ → System → Type 0
IsLive last s = (k : ℕ) × (s' : System) × (step last k s ≡ some s')

child-IsLive : (last : ℕ) (s : System) → CanStep (is_open s.main) s.pipe s.chain → IsLive last s
unfolding step
child-IsLive last s (k, m, e) = (suc k, _, ap (after_move s) e)

main-IsLive :
    (last : ℕ) (m : Main) (s : System)
    → s.main ≡ m
    → IsDrained (is_open m) s.pipe s.chain
    → (m ≡ exited) ⊎ IsLive last s
unfolding step
main-IsLive last (writes i) s at h = elim (Bool-cases (leb i last)) [
  | inl more ↦ elim (Bool-cases (leb capacity (length s.pipe))) [
    | inl full ↦ elim (chain-CanStep true s.pipe s.chain h (inr (ground (arith, full)))) [
      | inl over ↦ absurd (open_goes_on s.pipe s.chain h over)
      | inr can ↦
          inr (child-IsLive last s (subst (λ m. CanStep (is_open m) s.pipe s.chain) (sym at) can))
    ]
    | inr room ↦
        inr
          (0, record s { main = writes (suc i); pipe = s.pipe ++ i ∷ [] }, rw (at, more, room) refl)
  ]
  | inr done ↦ inr (0, record s { main = waits }, rw (at, done) refl)
]
main-IsLive last waits s at h = elim (chain-CanStep false s.pipe s.chain h (inl refl)) [
  | inl over ↦ inr (0, record s { main = exited }, rw (at, over) refl)
  | inr can ↦
      inr (child-IsLive last s (subst (λ m. CanStep (is_open m) s.pipe s.chain) (sym at) can))
]
main-IsLive last exited s at h = inl refl

-- In whatever order the processes of primes run, they make at most n * n + 4 * n + 3 steps altogether, where
-- n = last - 1 is how many numbers main writes; and at any time either main has exited and all primes
-- from 2 to `last` are printed, in ascending order, or some process can step.
pub primes_end :
    (last : ℕ) (ks : List ℕ)
    → (steps_taken last ks booted ≤ (last - 1) * (last - 1) + 4 * (last - 1) + 3)
      × ((((run last ks booted).main ≡ exited) × ((run last ks booted).printed ≡ primes_to last))
          ⊎ IsLive last (run last ks booted))
unfolding work
primes_end last ks =
    let s = run last ks booted in
    let h = run-IsRun last ks booted (booted-IsRun last) in
    let n : 0 + length (from_to (suc last - 2) 2) ≡ last - 1 =
      omega (arith, length-from_to (suc last - 2) 2) in
    let w : work (length booted.pipe + length (to_write last booted.main)) booted.chain
        ≡ turns (last - 1) =
      ap turns n in
    (
      omega (arith, steps_taken_le last ks booted, turns_closed (last - 1), w),
      elim (main-IsLive last s.main s refl h.drained) [
        | inl over ↦ inl (over, all_printed last s h over)
        | inr live ↦ inr live
      ],
    )
