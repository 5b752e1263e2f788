-- ===== src/Sieve/Runs.antt =====
-- What the processes have printed, in every order of their steps.
use monitors_and_ipc.Prelude.{
  ℕ, zero, suc, ◌-◌, ◌≡◌, ◌∙◌, inl, inr, refl, sym, ap, subst, Bool, true, false, Option, none,
  some, List, [], ◌∷◌, ◌++◌, leb, length, if◌then◌else◌, arith, Bool-cases, Option-cases, ◌<◌, ◌≤◌,
}
use mathlib.Core.List.{append_assoc, append-nil}
use mathlib.Core.Option.{some-injective}
use monitors_and_ipc.Sieve.{
  Chain, starting, ended, stage, is_ended, Moved, first_step, chain_step, capacity, Main, writes,
  waits, exited, System, is_open, booted, main_step, after_move, step, run,
}
use monitors_and_ipc.Sieve.Output.{out, IsDrained, chain-Prints, open-IsDrained}
use monitors_and_ipc.Sieve.Primes.{is_prime, from_to, selected, sieve_primes, length-from_to}

-- The primes up to `last`, in ascending order.
abbrev pub primes_to : ℕ → List ℕ
primes_to last = selected is_prime (from_to (suc last - 2) 2)

-- What main has yet to write.
abbrev pub to_write : ℕ → Main → List ℕ
to_write last (writes i) = from_to (suc last - i) i
to_write last waits = []
to_write last exited = []

-- main has exited only after its child.
abbrev pub IsOver : Main → Chain → Type 0
IsOver (writes i) c = Unit {0}
IsOver waits c = Unit {0}
IsOver exited c = c ≡ ended

pub record IsRun (last : ℕ) (s : System) : Type 0 where
  pub drained : IsDrained (is_open s.main) s.pipe s.chain
  pub total : s.printed ++ out (s.pipe ++ to_write last s.main) s.chain ≡ primes_to last
  pub over : IsOver s.main s.chain

pub booted-IsRun : (last : ℕ) → IsRun last booted
unfolding out
booted-IsRun last = record {
  drained = tt;
  total =
      sieve_primes (suc last - 2) (length (from_to (suc last - 2) 2))
        (omega (arith, length-from_to (suc last - 2) 2));
  over = tt;
}

pub no_system : {s : System} → ◌≡◌ {A = Option System} none (some s) → ⊥
no_system e = cc

pub closed_rest : (last : ℕ) (m : Main) → is_open m ≡ false → to_write last m ≡ []
closed_rest last (writes i) e = absurd (ground (arith, e))
closed_rest last waits e = refl
closed_rest last exited e = refl

no_step :
    (o : Bool) (k : ℕ) (xs : List ℕ) (m : Moved)
    → ◌≡◌ {A = Option Moved} (chain_step o k xs ended) (some m)
    → ⊥
unfolding chain_step first_step
no_step o zero [] m e = cc
no_step o zero (x ∷ xs) m e = cc
no_step o (suc k) xs m e = cc

kept-IsOver :
    (main : Main) (o : Bool) (k : ℕ) (xs : List ℕ) (c : Chain) (m : Moved)
    → IsOver main c
    → chain_step o k xs c ≡ some m
    → IsOver main m.chain
kept-IsOver (writes i) o k xs c m h e = tt
kept-IsOver waits o k xs c m h e = tt
kept-IsOver exited o k xs c m h e =
    absurd (no_step o k xs m (subst (λ d. chain_step o k xs d ≡ some m) h e))

moved-IsRun :
    (last : ℕ) (s s' : System) (r : Option Moved) (k : ℕ)
    → chain_step (is_open s.main) k s.pipe s.chain ≡ r
    → IsRun last s
    → after_move s r ≡ some s'
    → IsRun last s'
moved-IsRun last s s' none k e h f = absurd (no_system f)
moved-IsRun last s s' (some m) k e h f =
    let (drained', same) = chain-Prints (is_open s.main) k s.pipe s.chain m h.drained e in
    subst (IsRun last) (some-injective _ s' f) (record {
      drained = drained';
      total =
          append_assoc s.printed m.prints _
          ∙ ap (λ ys. s.printed ++ ys) (sym (same (to_write last s.main) (closed_rest last s.main)))
          ∙ h.total;
      over = kept-IsOver s.main (is_open s.main) k s.pipe s.chain m h.over e;
    })

one_more :
    (last i : ℕ) → i ≤ last → from_to (suc last - i) i ≡ i ∷ from_to (suc last - suc i) (suc i)
unfolding from_to
one_more last i le = (let e : suc last - i ≡ suc (suc last - suc i) = omega arith in rw e refl)

none_left : (last i : ℕ) → last < i → from_to (suc last - i) i ≡ []
unfolding from_to
none_left last i lt = (let e : suc last - i ≡ 0 = omega arith in rw e refl)

-- main writes a number, or closes its pipe.
write-IsRun :
    (last i : ℕ) (s s' : System)
    → IsRun last (record s { main = writes i })
    → main_step last (writes i) s ≡ some s'
    → IsRun last s'
write-IsRun last i s s' h f = elim (Bool-cases (leb i last)) [
  | inl more ↦ elim (Bool-cases (leb capacity (length s.pipe))) [
    | inl full ↦ absurd (no_system (rw (more, full) at f))
    | inr room ↦ subst (IsRun last) (some-injective _ s' (rw (more, room) at f)) (record {
      drained = open-IsDrained true s.pipe (s.pipe ++ i ∷ []) s.chain h.drained;
      total =
          ap (λ ys. s.printed ++ out ys s.chain)
            (append_assoc s.pipe (i ∷ []) (from_to (suc last - suc i) (suc i))
              ∙ ap (λ ys. s.pipe ++ ys) (sym (one_more last i (ground (arith, more)))))
          ∙ h.total;
      over = tt;
    })
  ]
  | inr done ↦ subst (IsRun last) (some-injective _ s' (rw done at f)) (record {
    drained = open-IsDrained false s.pipe s.pipe s.chain h.drained;
    total =
        ap (λ ys. s.printed ++ out (s.pipe ++ ys) s.chain)
          (sym (none_left last i (ground (arith, done))))
        ∙ h.total;
    over = tt;
  })
]

-- main comes back from wait(0) and exits.
exit-IsRun :
    (last : ℕ) (s s' : System) (c : Chain)
    → s.chain ≡ c
    → IsRun last (record s { main = waits })
    → (if is_ended c then some (record s { main = exited }) else none) ≡ some s'
    → IsRun last s'
exit-IsRun last s s' starting e h f = absurd (no_system f)
exit-IsRun last s s' (stage phase p q c) e h f = absurd (no_system f)
exit-IsRun last s s' ended e h f =
    subst (IsRun last) (some-injective _ s' f)
      (record { drained = h.drained; total = h.total; over = e })

main-IsRun :
    (last : ℕ) (m : Main) (s s' : System)
    → s.main ≡ m
    → IsRun last s
    → main_step last m s ≡ some s'
    → IsRun last s'
main-IsRun last (writes i) s s' at h f =
    write-IsRun last i s s' (subst (IsRun last) (ap (λ x. record s { main = x }) at) h) f
main-IsRun last waits s s' at h f =
    exit-IsRun last s s' s.chain refl (subst (IsRun last) (ap (λ x. record s { main = x }) at) h) f
main-IsRun last exited s s' at h f = absurd (no_system f)

pub step-IsRun :
    (last k : ℕ) (s s' : System) → IsRun last s → step last k s ≡ some s' → IsRun last s'
unfolding step
step-IsRun last zero s s' h e = main-IsRun last s.main s s' refl h e
step-IsRun last (suc k) s s' h e = moved-IsRun last s s' _ k refl h e

pub run-IsRun : (last : ℕ) (ks : List ℕ) (s : System) → IsRun last s → IsRun last (run last ks s)
unfolding run
run-IsRun last [] s h = h
run-IsRun last (k ∷ ks) s h = elim (Option-cases (step last k s)) [
  | inl blocked ↦ rw blocked (run-IsRun last ks s h)
  | inr (s', e) ↦ rw e (run-IsRun last ks s' (step-IsRun last k s s' h e))
]

pub all_printed :
    (last : ℕ) (s : System) → IsRun last s → s.main ≡ exited → s.printed ≡ primes_to last
unfolding out
all_printed last s h e =
    let over : s.chain ≡ ended = subst (λ m. IsOver m s.chain) e h.over in
    let nothing : out (s.pipe ++ to_write last s.main) s.chain ≡ [] =
      ap (out (s.pipe ++ to_write last s.main)) over in
    sym (append-nil s.printed) ∙ ap (λ ys. s.printed ++ ys) (sym nothing) ∙ h.total

-- In whatever order the processes of primes run, what they have printed is the first of the primes from
-- 2 to `last`, in ascending order.
pub run_prints :
    (last : ℕ) (ks : List ℕ)
    → (later : List ℕ) × ((run last ks booted).printed ++ later ≡ primes_to last)
run_prints last ks = (_, (run-IsRun last ks booted (booted-IsRun last)).total)
