-- ===== src/Sieve/Output.antt =====
-- What a chain has yet to print, which no step changes.
use monitors_and_ipc.Prelude.{
  ℕ, zero, suc, ◌%◌, ◌≡◌, inl, inr, refl, sym, ap, subst, Bool, true, false, Option, none, some,
  List, [], ◌∷◌, ◌++◌, ◌==◌, leb, length, if◌then◌else◌, arith, Bool-cases, ◌≤◌,
}
use mathlib.Core.List.{append_assoc}
use mathlib.Core.Option.{some-injective}
use monitors_and_ipc.Sieve.{
  Phase, reading, holding, waiting, Chain, starting, ended, stage, is_writing, Moved, first_step,
  behind, chain_step,
}

-- The numbers that a process with this prime passes on.
unfoldable pub passed : ℕ → List ℕ → List ℕ
passed prime [] = []
passed prime (x ∷ xs) = let rest = passed prime xs in if x % prime == 0 then rest else x ∷ rest

pub passed-append : (p : ℕ) (xs ys : List ℕ) → passed p (xs ++ ys) ≡ passed p xs ++ passed p ys
unfolding passed
passed-append p [] ys = refl
passed-append p (x ∷ xs) ys = ground (arith, passed-append p xs ys)

pub length-passed-le : (p : ℕ) (xs : List ℕ) → length (passed p xs) ≤ length xs
unfolding passed
length-passed-le p [] = omega arith
length-passed-le p (x ∷ xs) = ground (arith, length-passed-le p xs)

-- The sieve as a function on lists; as much fuel as there are numbers is enough.
unfoldable pub sieve : (fuel : ℕ) → List ℕ → List ℕ
sieve fuel [] = []
sieve zero (x ∷ xs) = []
sieve (suc fuel) (x ∷ xs) = x ∷ sieve fuel (passed x xs)

pub sieve_enough : (f g : ℕ) (xs : List ℕ) → length xs ≤ f → length xs ≤ g → sieve f xs ≡ sieve g xs
unfolding sieve
sieve_enough f g [] le le' = refl
sieve_enough zero g (x ∷ xs) le le' = absurd (omega arith)
sieve_enough (suc f) zero (x ∷ xs) le le' = absurd (omega arith)
sieve_enough (suc f) (suc g) (x ∷ xs) le le' =
    ap (λ ys. x ∷ ys)
      (sieve_enough f g (passed x xs) (omega (arith, length-passed-le x xs))
        (omega (arith, length-passed-le x xs)))

-- A number that a process has read goes before those in its pipe.
abbrev pub held : Phase → List ℕ → List ℕ
held reading xs = xs
held (holding num) xs = num ∷ xs
held waiting xs = xs

-- What the chain prints of the numbers `xs` that it has yet to read, and of those inside it.
unfoldable pub out : List ℕ → Chain → List ℕ
out xs starting = sieve (length xs) xs
out xs ended = []
out xs (stage phase prime pipe child) = out (pipe ++ passed prime (held phase xs)) child

-- A process waits or has ended only when its pipe is empty and closed.
abbrev pub IsDrained : Bool → List ℕ → Chain → Type 0
IsDrained o xs starting = Unit {0}
IsDrained o xs ended = (o ≡ false) × (xs ≡ [])
IsDrained o xs (stage reading prime pipe child) = IsDrained true pipe child
IsDrained o xs (stage (holding num) prime pipe child) = IsDrained true pipe child
IsDrained o xs (stage waiting prime pipe child) =
    (o ≡ false) × (xs ≡ []) × IsDrained false pipe child

-- After a step, the numbers `ys` that come later included, `prints` is what is no longer to be printed.
abbrev pub Prints : Bool → List ℕ → Chain → Moved → Type 0
Prints o xs c m =
    IsDrained o m.input m.chain
    × ((ys : List ℕ)
        → (o ≡ false → ys ≡ [])
        → out (xs ++ ys) c ≡ m.prints ++ out (m.input ++ ys) m.chain)

starts_out :
    (x : ℕ) (xs : List ℕ)
    → sieve (length (x ∷ xs)) (x ∷ xs) ≡ x ∷ out xs (stage reading x [] starting)
unfolding out sieve
starts_out x xs =
    ap (λ ys. x ∷ ys)
      (sieve_enough (length xs) (length (passed x xs)) (passed x xs) (length-passed-le x xs)
        (omega arith))

as_moved :
    (o : Bool) (xs : List ℕ) (c : Chain) (m' m : Moved)
    → ◌≡◌ {A = Option Moved} (some m') (some m)
    → Prints o xs c m'
    → Prints o xs c m
as_moved o xs c m' m e h = subst (Prints o xs c) (some-injective m' m e) h

pub blocked : (m : Moved) → ◌≡◌ {A = Option Moved} none (some m) → ⊥
blocked m e = cc

-- A chain with an open pipe before it is in order whatever comes.
pub open-IsDrained : (o : Bool) (q q' : List ℕ) (c : Chain) → IsDrained true q c → IsDrained o q' c
open-IsDrained o q q' starting h = tt
open-IsDrained o q q' ended h = absurd (ground (arith, h.0))
open-IsDrained o q q' (stage reading p r c) h = h
open-IsDrained o q q' (stage (holding num) p r c) h = h
open-IsDrained o q q' (stage waiting p r c) h = absurd (ground (arith, h.0))

-- The process writes the number that it holds, or drops it.
hold-Prints :
    (o : Bool) (xs : List ℕ) (num p : ℕ) (q : List ℕ) (c : Chain) (m : Moved)
    → IsDrained true q c
    → first_step o xs (stage (holding num) p q c) ≡ some m
    → Prints o xs (stage (holding num) p q c) m
unfolding first_step out passed
hold-Prints o xs num p q c m h e = elim (Bool-cases (num % p == 0)) [
  | inl drop ↦
      as_moved o xs (stage (holding num) p q c) _ m (rw drop at e) (h, λ ys closed. rw drop refl)
  | inr keep ↦ elim (Bool-cases (leb 128 (length q))) [
    | inl full ↦ absurd (ground (arith, (rw (keep, full) at e)))
    | inr room ↦ as_moved o xs (stage (holding num) p q c) _ m (rw (keep, room) at e) (
      open-IsDrained true q (q ++ num ∷ []) c h,
      λ ys closed.
          rw keep (ap (λ zs. out zs c) (sym (append_assoc q (num ∷ []) (passed p (xs ++ ys))))),
    )
  ]
]

first-Prints :
    (o : Bool) (xs : List ℕ) (c : Chain) (m : Moved)
    → IsDrained o xs c
    → first_step o xs c ≡ some m
    → Prints o xs c m
unfolding first_step out sieve
first-Prints o (x ∷ xs) starting m h e =
    as_moved o (x ∷ xs) starting _ m e (tt, λ ys closed. starts_out x (xs ++ ys))
first-Prints true [] starting m h e = absurd (blocked m e)
first-Prints false [] starting m h e =
    as_moved false [] starting _ m e ((refl, refl), λ ys closed. rw (closed refl) refl)
first-Prints o (x ∷ xs) (stage reading p q c) m h e =
    as_moved o (x ∷ xs) (stage reading p q c) _ m e (h, λ ys closed. refl)
first-Prints true [] (stage reading p q c) m h e = absurd (blocked m e)
first-Prints false [] (stage reading p q c) m h e =
    as_moved false [] (stage reading p q c) _ m e
      ((refl, refl, open-IsDrained false q q c h), λ ys closed. refl)
first-Prints o xs (stage (holding num) p q c) m h e = hold-Prints o xs num p q c m h e
first-Prints o xs (stage waiting p q starting) m h e = absurd (blocked m e)
first-Prints o xs (stage waiting p q ended) m h e =
    as_moved o xs (stage waiting p q ended) _ m e ((h.0, h.1), λ ys closed. refl)
first-Prints o xs (stage waiting p q (stage ph p' q' c)) m h e = absurd (blocked m e)
first-Prints o xs ended m h e = absurd (blocked m e)

behind-Prints :
    (o : Bool) (xs : List ℕ) (phase : Phase) (p : ℕ) (q : List ℕ) (c : Chain) (m : Moved)
    → IsDrained o xs (stage phase p q c)
    → Prints (is_writing phase) q c m
    → Prints o xs
        (stage phase p q c)
        (record { input = xs; chain = stage phase p m.input m.chain; prints = m.prints })
unfolding out passed
behind-Prints o xs reading p q c m h (h', same) =
    (h', λ ys closed. same (passed p (xs ++ ys)) (λ f. absurd (ground (arith, f))))
behind-Prints o xs (holding num) p q c m h (h', same) =
    (h', λ ys closed. same (passed p (num ∷ xs ++ ys)) (λ f. absurd (ground (arith, f))))
behind-Prints o xs waiting p q c m (shut, empty, h) (h', same) =
    ((shut, empty, h'), λ ys closed. same (passed p (xs ++ ys)) (λ f. rw (empty, closed shut) refl))

pub inner-IsDrained :
    (o : Bool) (xs : List ℕ) (phase : Phase) (p : ℕ) (q : List ℕ) (c : Chain)
    → IsDrained o xs (stage phase p q c)
    → IsDrained (is_writing phase) q c
inner-IsDrained o xs reading p q c h = h
inner-IsDrained o xs (holding num) p q c h = h
inner-IsDrained o xs waiting p q c (shut, empty, h) = h

-- A step behind a stage is a step of the chain there.
pub inner_step :
    (xs : List ℕ) (phase : Phase) (p : ℕ) (r : Option Moved) (m : Moved)
    → behind xs phase p r ≡ some m
    → (m' : Moved) × (r ≡ some m')
      × (record { input = xs; chain = stage phase p m'.input m'.chain; prints = m'.prints } ≡ m)
inner_step xs phase p none m e = absurd (blocked m e)
inner_step xs phase p (some m') m e = (m', refl, some-injective _ m e)

pub chain-Prints :
    (o : Bool) (k : ℕ) (xs : List ℕ) (c : Chain) (m : Moved)
    → IsDrained o xs c
    → chain_step o k xs c ≡ some m
    → Prints o xs c m
unfolding chain_step
chain-Prints o zero xs c m h e = first-Prints o xs c m h e
chain-Prints o (suc k) xs starting m h e = absurd (blocked m e)
chain-Prints o (suc k) xs ended m h e = absurd (blocked m e)
chain-Prints o (suc k) xs (stage phase p q c) m h e =
    let (m', e', same) = inner_step xs phase p (chain_step (is_writing phase) k q c) m e in
    subst (Prints o xs (stage phase p q c)) same (
      behind-Prints o xs phase p q c m' h
        (chain-Prints (is_writing phase) k q c m' (inner-IsDrained o xs phase p q c h) e'))
