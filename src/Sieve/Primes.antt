-- ===== src/Sieve/Primes.antt =====
-- What the sieve makes of the numbers from 2 on.
use monitors_and_ipc.Prelude.{
  ℕ, zero, suc, ◌+◌, ◌-◌, ◌%◌, ◌≡◌, ◌∙◌, inl, inr, refl, sym, ap, Bool, true, false, not, ◌&&◌,
  List, [], ◌∷◌, ◌==◌, length, if◌then◌else◌, arith, Bool-cases, ◌<◌, ◌≤◌,
}
use native.Mathlib.Nat.{mod-mod_of_dvd, dvd_of_mod-eq-zero, zero-mod}
use monitors_and_ipc.Sieve.Output.{passed, sieve}

-- None of the `n` numbers from `d` on divides `x`.
unfoldable pub undivided : (n d x : ℕ) → Bool
undivided zero d x = true
undivided (suc n) d x = not (x % d == 0) && undivided n (suc d) x

-- No number from 2 to x - 1 divides x.
abbrev pub is_prime : ℕ → Bool
is_prime x = undivided (x - 2) 2 x

-- `a`, …, `a + n - 1`.
unfoldable pub from_to : (n a : ℕ) → List ℕ
from_to zero a = []
from_to (suc n) a = a ∷ from_to n (suc a)

unfoldable pub selected : (ℕ → Bool) → List ℕ → List ℕ
selected f [] = []
selected f (x ∷ xs) = let rest = selected f xs in if f x then x ∷ rest else rest

-- `undivided` reads as a statement about every divisor.
pub undivided_at :
    (n d x : ℕ) → undivided n d x ≡ true → (k : ℕ) → d ≤ k → k < d + n → (x % k == 0) ≡ false
unfolding undivided
undivided_at zero d x e k le lt = absurd (omega arith)
undivided_at (suc n) d x e k le lt = elim (Bool-cases (d == k)) [
  | inl same ↦ (let at : d ≡ k = ground (arith, same) in ground (arith, e, ap (λ i. x % i) at))
  | inr off ↦ undivided_at n (suc d) x (ground (arith, e)) k (ground (arith, off)) (omega arith)
]

pub divided_at :
    (n d x : ℕ) → undivided n d x ≡ false → (k : ℕ) × (d ≤ k) × (k < d + n) × ((x % k == 0) ≡ true)
unfolding undivided
divided_at zero d x e = absurd (ground (arith, e))
divided_at (suc n) d x e = elim (Bool-cases (x % d == 0)) [
  | inl yes_it ↦ (d, omega arith, omega arith, yes_it)
  | inr off ↦
      let (k, le, lt, z) = divided_at n (suc d) x (ground (arith, e, off)) in
      (k, omega arith, omega arith, z)
]

-- The numbers that are left when those that 2, …, a - 1 divide are gone.
abbrev left_from : (a n b : ℕ) → List ℕ
left_from a n b = selected (undivided (a - 2) 2) (from_to n b)

divides_trans : (x a k : ℕ) → a % k ≡ 0 → x % a ≡ 0 → x % k ≡ 0
divides_trans x a k e f =
    sym (mod-mod_of_dvd k x (dvd_of_mod-eq-zero k e)) ∙ ap (λ r. r % k) f ∙ zero-mod k

undivided-suc : (n d x : ℕ) → undivided (suc n) d x ≡ (undivided n d x && not (x % (d + n) == 0))
unfolding undivided
undivided-suc zero d x = (let e : d + 0 ≡ d = omega arith in rw e (ground arith))
undivided-suc (suc n) d x =
    (let e : suc d + n ≡ d + suc n = omega arith in
      let h : undivided (suc n) (suc d) x ≡ (undivided n (suc d) x && not (x % (d + suc n) == 0)) =
        undivided-suc n (suc d) x ∙ ap (λ k. undivided n (suc d) x && not (x % k == 0)) e in
      ground (arith, h))

-- The divisors below `a + 1` are those below `a`, and `a`.
next_divisor :
    (a x : ℕ) → 2 ≤ a → undivided (suc a - 2) 2 x ≡ (undivided (a - 2) 2 x && not (x % a == 0))
next_divisor a x le =
    let e : suc a - 2 ≡ suc (a - 2) = omega arith in
    let f : 2 + (a - 2) ≡ a = omega arith in
    ap (λ n. undivided n 2 x) e
    ∙ undivided-suc (a - 2) 2 x
    ∙ ap (λ k. undivided (a - 2) 2 x && not (x % k == 0)) f

selected_cong :
    (f g : ℕ → Bool) (xs : List ℕ) → ((x : ℕ) → f x ≡ g x) → selected f xs ≡ selected g xs
unfolding selected
selected_cong f g [] same = refl
selected_cong f g (x ∷ xs) same = rw (same x, selected_cong f g xs same) refl

passed-selected :
    (a : ℕ) (xs : List ℕ)
    → 2 ≤ a
    → passed a (selected (undivided (a - 2) 2) xs) ≡ selected (undivided (suc a - 2) 2) xs
unfolding passed selected
passed-selected a [] le = refl
passed-selected a (x ∷ xs) le = rw (next_divisor a x le) (ground (arith, passed-selected a xs le))

-- What a composite number divides, a smaller one divides.
composite_adds_nothing :
    (a x : ℕ) → 2 ≤ a → is_prime a ≡ false → undivided (a - 2) 2 x ≡ undivided (suc a - 2) 2 x
composite_adds_nothing a x le e =
    let (k, low, high, z) = divided_at (a - 2) 2 a e in
    elim (Bool-cases (undivided (a - 2) 2 x)) [
      | inr off ↦ off ∙ sym (next_divisor a x le ∙ ground (arith, off))
      | inl on ↦
          let off : (x % a == 0) ≡ false = elim (Bool-cases (x % a == 0)) [
            | inr far ↦ far
            | inl near ↦
                let d : x % k ≡ 0 =
                  divides_trans x a k (ground (arith, z)) (ground (arith, near)) in
                absurd (ground (arith, undivided_at (a - 2) 2 x on k low high, d))
          ] in
          on ∙ sym (next_divisor a x le ∙ ground (arith, on, off))
    ]

length-selected-le : (f : ℕ → Bool) (xs : List ℕ) → length (selected f xs) ≤ length xs
unfolding selected
length-selected-le f [] = omega arith
length-selected-le f (x ∷ xs) = ground (arith, length-selected-le f xs)

sieve_left :
    (n a f : ℕ) → 2 ≤ a → n ≤ f → sieve f (left_from a n a) ≡ selected is_prime (from_to n a)
unfolding sieve from_to selected
sieve_left zero a f le enough = refl
sieve_left (suc n) a zero le enough = absurd (omega arith)
sieve_left (suc n) a (suc f) le enough = elim (Bool-cases (is_prime a)) [
  | inl e ↦ rw e (
      ap (λ xs. a ∷ xs)
        (ap (sieve f) (passed-selected a (from_to n (suc a)) le)
          ∙ sieve_left n (suc a) f (omega arith) (omega arith)))
  | inr e ↦ rw e (
      ap (sieve (suc f))
        (selected_cong _ _ (from_to n (suc a)) (λ x. composite_adds_nothing a x le e))
      ∙ sieve_left n (suc a) (suc f) (omega arith) (omega arith))
]

selected_all : (f : ℕ → Bool) (xs : List ℕ) → ((x : ℕ) → f x ≡ true) → selected f xs ≡ xs
unfolding selected
selected_all f [] all = refl
selected_all f (x ∷ xs) all = rw (all x, selected_all f xs all) refl

-- The sieve of the numbers from 2 on is the primes among them, in order.
pub sieve_primes : (n f : ℕ) → n ≤ f → sieve f (from_to n 2) ≡ selected is_prime (from_to n 2)
unfolding undivided
sieve_primes n f enough =
    ap (sieve f) (sym (selected_all (undivided 0 2) (from_to n 2) (λ x. refl)))
    ∙ sieve_left n 2 f (omega arith) enough

pub length-from_to : (n a : ℕ) → length (from_to n a) ≡ n
unfolding from_to
length-from_to zero a = refl
length-from_to (suc n) a = ap suc (length-from_to n (suc a))
