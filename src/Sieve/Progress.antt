-- ===== src/Sieve/Progress.antt =====
-- The processes of primes do not block each other for ever, and end.
use monitors_and_ipc.Prelude.{
  ℕ, zero, suc, ◌+◌, ◌*◌, ◌%◌, ◌≡◌, ◌⊎◌, inl, inr, refl, ap, subst, Bool, true, false, Option, some,
  List, [], ◌∷◌, ◌++◌, leb, length, length-append, arith, Bool-cases, ◌<◌, ◌≤◌, ◌==◌,
}
use mathlib.Core.Option.{some-injective}
use monitors_and_ipc.Sieve.{
  Phase, reading, holding, waiting, is_writing, Chain, starting, ended, stage, Moved, behind,
  first_step, chain_step,
}
use monitors_and_ipc.Sieve.Output.{IsDrained, inner-IsDrained, blocked, inner_step}

-- A bound on the steps that a process in its first read and those that it starts make for `n` numbers.
unfoldable pub turns : ℕ → ℕ
turns zero = 1
turns (suc n) = 4 + 2 * n + turns n

-- A bound on the steps that a chain still makes, with `n` numbers before it.
unfoldable pub work : ℕ → Chain → ℕ
work n starting = turns n
work n ended = 0
work n (stage reading p q c) = 2 + 2 * n + work (length q + n) c
work n (stage (holding num) p q c) = 3 + 2 * n + work (length q + suc n) c
work n (stage waiting p q c) = 1 + work (length q) c

turns_mono : (n d : ℕ) → turns n ≤ turns (d + n)
unfolding turns
turns_mono n zero = omega (arith, ap turns (let e : 0 + n ≡ n = omega arith in e))
turns_mono n (suc d) =
    let e : suc d + n ≡ suc (d + n) = omega arith in omega (arith, turns_mono n d, ap turns e)

work_mono : (n d : ℕ) (c : Chain) → work n c ≤ work (d + n) c
unfolding work
work_mono n d starting = turns_mono n d
work_mono n d ended = omega arith
work_mono n d (stage reading p q c) =
    let e : length q + (d + n) ≡ d + (length q + n) = omega arith in
    omega (arith, work_mono (length q + n) d c, ap (λ k. work k c) e)
work_mono n d (stage (holding num) p q c) =
    let e : length q + suc (d + n) ≡ d + (length q + suc n) = omega arith in
    omega (arith, work_mono (length q + suc n) d c, ap (λ k. work k c) e)
work_mono n d (stage waiting p q c) = omega arith

-- A step makes the bound smaller, `r` numbers that come later included.
abbrev pub Falls : Bool → List ℕ → Chain → Moved → Type 0
Falls o xs c m =
    (r : ℕ) → (o ≡ false → r ≡ 0) → work (length m.input + r) m.chain < work (length xs + r) c

as_Falls :
    (o : Bool) (xs : List ℕ) (c : Chain) (m' m : Moved)
    → ◌≡◌ {A = Option Moved} (some m') (some m)
    → Falls o xs c m'
    → Falls o xs c m
as_Falls o xs c m' m e h = subst (Falls o xs c) (some-injective m' m e) h

one_later :
    (num : ℕ) (q : List ℕ) (n : ℕ) (c : Chain)
    → work (length (q ++ num ∷ []) + n) c ≡ work (length q + suc n) c
one_later num q n c = ap (λ k. work k c) (omega (arith, length-append q (num ∷ [])))

hold-Falls :
    (o : Bool) (xs : List ℕ) (num p : ℕ) (q : List ℕ) (c : Chain) (m : Moved)
    → first_step o xs (stage (holding num) p q c) ≡ some m
    → Falls o xs (stage (holding num) p q c) m
unfolding first_step work
hold-Falls o xs num p q c m e = elim (Bool-cases (num % p == 0)) [
  | inl drop ↦ as_Falls o xs (stage (holding num) p q c) _ m (rw drop at e) (λ r closed.
      let e1 : length q + suc (length xs + r) ≡ 1 + (length q + (length xs + r)) = omega arith in
      omega (arith, work_mono (length q + (length xs + r)) 1 c, ap (λ k. work k c) e1))
  | inr keep ↦ elim (Bool-cases (leb 128 (length q))) [
    | inl full ↦ absurd (ground (arith, (rw (keep, full) at e)))
    | inr room ↦
        as_Falls o xs (stage (holding num) p q c) _ m (rw (keep, room) at e)
          (λ r closed. omega (arith, one_later num q (length xs + r) c))
  ]
]

ended_stays :
    (o : Bool) (k : ℕ) (xs : List ℕ) (m : Moved)
    → ◌≡◌ {A = Option Moved} (chain_step o k xs ended) (some m)
    → ⊥
unfolding chain_step first_step
ended_stays o zero [] m e = cc
ended_stays o zero (x ∷ xs) m e = cc
ended_stays o (suc k) xs m e = cc

first-Falls :
    (o : Bool) (xs : List ℕ) (c : Chain) (m : Moved) → first_step o xs c ≡ some m → Falls o xs c m
unfolding first_step work turns
first-Falls o (x ∷ xs) starting m e = as_Falls o (x ∷ xs) starting _ m e (λ r closed.
    let e1 : suc (length xs) + r ≡ suc (length xs + r) = omega arith in
    let e2 : 0 + (length xs + r) ≡ length xs + r = omega arith in
    omega (arith, ap turns e1, ap turns e2))
first-Falls true [] starting m e = absurd (blocked m e)
first-Falls false [] starting m e =
    as_Falls false [] starting _ m e (λ r closed. rw (closed refl) (omega arith))
first-Falls o (x ∷ xs) (stage reading p q c) m e =
    as_Falls o (x ∷ xs) (stage reading p q c) _ m e (λ r closed.
      let e1 : length q + (suc (length xs) + r) ≡ length q + suc (length xs + r) = omega arith in
      omega (arith, ap (λ k. work k c) e1))
first-Falls true [] (stage reading p q c) m e = absurd (blocked m e)
first-Falls false [] (stage reading p q c) m e =
    as_Falls false [] (stage reading p q c) _ m e (λ r closed.
      let e1 : length q + (0 + r) ≡ length q = omega (arith, closed refl) in
      omega (arith, ap (λ k. work k c) e1))
first-Falls o xs (stage (holding num) p q c) m e = hold-Falls o xs num p q c m e
first-Falls o xs (stage waiting p q starting) m e = absurd (blocked m e)
first-Falls o xs (stage waiting p q ended) m e =
    as_Falls o xs (stage waiting p q ended) _ m e (λ r closed. omega arith)
first-Falls o xs (stage waiting p q (stage ph p' q' c)) m e = absurd (blocked m e)
first-Falls o [] ended m e = absurd (blocked m e)
first-Falls o (x ∷ xs) ended m e = absurd (blocked m e)

behind-Falls :
    (o : Bool) (xs : List ℕ) (phase : Phase) (p : ℕ) (q : List ℕ) (c : Chain) (m : Moved)
    → Falls (is_writing phase) q c m
    → Falls o xs
        (stage phase p q c)
        (record { input = xs; chain = stage phase p m.input m.chain; prints = m.prints })
unfolding work
behind-Falls o xs reading p q c m h =
    λ r closed. omega (arith, h (length xs + r) (λ f. absurd (ground (arith, f))))
behind-Falls o xs (holding num) p q c m h =
    λ r closed. omega (arith, h (suc (length xs + r)) (λ f. absurd (ground (arith, f))))
behind-Falls o xs waiting p q c m h = λ r closed.
    let e1 : length m.input + 0 ≡ length m.input = omega arith in
    let e2 : length q + 0 ≡ length q = omega arith in
    omega (arith, h 0 (λ f. refl), ap (λ k. work k m.chain) e1, ap (λ k. work k c) e2)

pub chain-Falls :
    (o : Bool) (k : ℕ) (xs : List ℕ) (c : Chain) (m : Moved)
    → chain_step o k xs c ≡ some m
    → Falls o xs c m
unfolding chain_step
chain-Falls o zero xs c m e = first-Falls o xs c m e
chain-Falls o (suc k) xs starting m e = absurd (blocked m e)
chain-Falls o (suc k) xs ended m e = absurd (blocked m e)
chain-Falls o (suc k) xs (stage phase p q c) m e =
    let (m', e', same) = inner_step xs phase p (chain_step (is_writing phase) k q c) m e in
    subst (Falls o xs (stage phase p q c)) same
      (behind-Falls o xs phase p q c m' (chain-Falls (is_writing phase) k q c m' e'))

-- Someone in a chain can step if there is something to read, or its pipe is closed.
abbrev pub CanStep : Bool → List ℕ → Chain → Type 0
CanStep o xs c = (k : ℕ) × (m : Moved) × (chain_step o k xs c ≡ some m)

further_CanStep :
    (o : Bool) (xs : List ℕ) (phase : Phase) (p : ℕ) (q : List ℕ) (c : Chain)
    → CanStep (is_writing phase) q c
    → CanStep o xs (stage phase p q c)
unfolding chain_step
further_CanStep o xs phase p q c (k, m, e) = (suc k, _, ap (behind xs phase p) e)

-- A chain behind an open pipe has not ended.
pub open_goes_on : (q : List ℕ) (c : Chain) → IsDrained true q c → c ≡ ended → ⊥
open_goes_on q c h e =
    (let (open_it, empty) = subst (IsDrained true q) e h in ground (arith, open_it))

-- A chain can step, or has ended, or reads from an open pipe that is empty.
pub chain-CanStep :
    (o : Bool) (xs : List ℕ) (c : Chain)
    → IsDrained o xs c
    → (o ≡ false) ⊎ (1 ≤ length xs)
    → (c ≡ ended) ⊎ CanStep o xs c
unfolding chain_step first_step
chain-CanStep o (x ∷ xs) starting h ready = inr (0, _, refl)
chain-CanStep false [] starting h ready = inr (0, _, refl)
chain-CanStep true [] starting h (inl e) = absurd (ground (arith, e))
chain-CanStep true [] starting h (inr le) = absurd (omega (arith, le))
chain-CanStep o xs ended h ready = inl refl
chain-CanStep o (x ∷ xs) (stage reading p q c) h ready = inr (0, _, refl)
chain-CanStep false [] (stage reading p q c) h ready = inr (0, _, refl)
chain-CanStep true [] (stage reading p q c) h (inl e) = absurd (ground (arith, e))
chain-CanStep true [] (stage reading p q c) h (inr le) = absurd (omega (arith, le))
chain-CanStep o xs (stage (holding num) p q c) h ready = elim (Bool-cases (num % p == 0)) [
  | inl drop ↦
      inr (0, record { input = xs; chain = stage reading p q c; prints = [] }, rw drop refl)
  | inr keep ↦ elim (Bool-cases (leb 128 (length q))) [
    | inr room ↦ inr (
      0,
      record { input = xs; chain = stage reading p (q ++ num ∷ []) c; prints = [] },
      rw (keep, room) refl,
    )
    | inl full ↦ elim (chain-CanStep true q c h (inr (ground (arith, full)))) [
      | inl over ↦ absurd (open_goes_on q c h over)
      | inr can ↦ inr (further_CanStep o xs (holding num) p q c can)
    ]
  ]
]
chain-CanStep o xs (stage waiting p q c) h ready =
    elim (chain-CanStep false q c (inner-IsDrained o xs waiting p q c h) (inl refl)) [
      | inl over ↦ inr (0, record { input = xs; chain = ended; prints = [] }, rw over refl)
      | inr can ↦ inr (further_CanStep o xs waiting p q c can)
    ]
