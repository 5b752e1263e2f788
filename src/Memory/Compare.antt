-- ===== src/Memory/Compare.antt =====
-- What memcmp answers.
use monitors_and_ipc.Prelude.{
  ℕ, zero, suc, ◌+◌, ◌-◌, ◌<◌, ◌≡◌, ◌↔◌, refl, ap, ◌∙◌, sym, inl, inr, Bool, true, false, ◌==◌,
  ◌&&◌, not, if◌then◌else◌, ltb, ℤ, pos, negsuc, arith, Bool-cases, is_zero,
}
use monitors_and_ipc.Memory.{Memory, memcmp, strncmp, difference}

abbrev is_pos_zero : ℤ → Bool
is_pos_zero (pos n) = is_zero n
is_pos_zero (negsuc n) = false

difference_ne : (a b : ℕ) → (a == b) ≡ false → difference a b ≡ pos 0 → ⊥
difference_ne a b off e =
    let h : is_pos_zero (difference a b) ≡ true = ap is_pos_zero e in
    elim (Bool-cases (ltb a b)) [ inl t ↦ ground (arith, h, t) | inr t ↦ ground (arith, h, t, off) ]

equal_of_zero :
    (n v1 v2 : ℕ) (m : Memory)
    → memcmp v1 v2 n m ≡ pos 0
    → (k : ℕ) → k < n
    → m (v1 + k) ≡ m (v2 + k)
unfolding memcmp
equal_of_zero zero v1 v2 m e k lt = absurd (omega arith)
equal_of_zero (suc n) v1 v2 m e k lt = elim (Bool-cases (m v1 == m v2)) [
  | inl t ↦
      let rest : memcmp (suc v1) (suc v2) n m ≡ pos 0 = (rw t at e) in
      elim (Bool-cases (k == 0)) [
        | inl z ↦ (let z' : k ≡ 0 = ground (arith, z) in rw z' (ground (arith, t)))
        | inr z ↦
            ground (arith, z, equal_of_zero n (suc v1) (suc v2) m rest (k - 1) (ground (arith, z)))
      ]
  | inr t ↦ absurd (difference_ne (m v1) (m v2) t (rw t at e))
]

zero_of_equal :
    (n v1 v2 : ℕ) (m : Memory)
    → ((k : ℕ) → k < n → m (v1 + k) ≡ m (v2 + k))
    → memcmp v1 v2 n m ≡ pos 0
unfolding memcmp
zero_of_equal zero v1 v2 m same = refl
zero_of_equal (suc n) v1 v2 m same =
    let first : (m v1 == m v2) ≡ true = ground (arith, same 0 (omega arith)) in
    rw first
      (zero_of_equal n (suc v1) (suc v2) m (λ k lt. ground (arith, same (suc k) (omega arith))))

-- memcmp answers 0 if and only if the two blocks hold the same bytes.
pub memcmp_iff :
    (v1 v2 n : ℕ) (m : Memory)
    → (memcmp v1 v2 n m ≡ pos 0) ↔ ((k : ℕ) → k < n → m (v1 + k) ≡ m (v2 + k))
memcmp_iff v1 v2 n m = (equal_of_zero n v1 v2 m, zero_of_equal n v1 v2 m)

-- The strings at `p` and `q` have the same first `n` bytes, up to the first NUL.
abbrev pub SameString : (p q n : ℕ) → Memory → Type 0
SameString p q n m =
    (k : ℕ) → k < n → ((i : ℕ) → i < k → (m (p + i) == 0) ≡ false) → m (p + k) ≡ m (q + k)

shift : (p k : ℕ) (m : Memory) → m (p + suc k) ≡ m (suc p + k)
shift p k m = ap m (omega arith)

earlier :
    (p k : ℕ) (m : Memory)
    → (m p == 0) ≡ false
    → ((i : ℕ) → i < k → (m (suc p + i) == 0) ≡ false)
    → (i : ℕ) → i < suc k
    → (m (p + i) == 0) ≡ false
earlier p k m off before zero lt = (let e : p + 0 ≡ p = omega arith in rw e off)
earlier p k m off before (suc i) lt = rw (shift p i m) (before i (omega arith))

same_rest :
    (p q n : ℕ) (m : Memory)
    → (m p == 0) ≡ false
    → SameString p q (suc n) m
    → SameString (suc p) (suc q) n m
same_rest p q n m off same k lt before =
    sym (shift p k m) ∙ same (suc k) (omega arith) (earlier p k m off before) ∙ shift q k m

same_more :
    (p q n : ℕ) (m : Memory) → m p ≡ m q → SameString (suc p) (suc q) n m → SameString p q (suc n) m
same_more p q n m first same zero lt before =
    (let e : p + 0 ≡ p = omega arith in let f : q + 0 ≡ q = omega arith in rw (e, f) first)
same_more p q n m first same (suc k) lt before =
    shift p k m
    ∙ same k (omega arith)
        (λ i lt'. ap (λ b. b == 0) (sym (shift p i m)) ∙ before (suc i) (omega arith))
    ∙ sym (shift q k m)

ends_here : (p q n : ℕ) (m : Memory) → m p ≡ m q → (m p == 0) ≡ true → SameString p q (suc n) m
ends_here p q n m first nul zero lt before =
    (let e : p + 0 ≡ p = omega arith in let f : q + 0 ≡ q = omega arith in rw (e, f) first)
ends_here p q n m first nul (suc k) lt before =
    (let e : p + 0 ≡ p = omega arith in
      let off : (m p == 0) ≡ false = ap (λ i. m i == 0) (sym e) ∙ before 0 (omega arith) in
      ground (arith, nul, off))

drop_test : (a b : Bool) (x y : ℤ) → b ≡ false → (if a && b then x else y) ≡ pos 0 → y ≡ pos 0
drop_test true b x y off e = rw off at e
drop_test false b x y off e = e

same_of_zero : (n p q : ℕ) (m : Memory) → strncmp p q n m ≡ pos 0 → SameString p q n m
unfolding strncmp
same_of_zero zero p q m e = λ k lt before. absurd (omega arith)
same_of_zero (suc n) p q m e = elim (Bool-cases (m p == m q)) [
  | inr off ↦ absurd (
      difference_ne (m p) (m q) off (
        drop_test (not (m p == 0)) (m p == m q) (strncmp (suc p) (suc q) n m)
          (difference (m p) (m q)) off e))
  | inl on ↦ elim (Bool-cases (m p == 0)) [
    | inl nul ↦ ends_here p q n m (ground (arith, on)) nul
    | inr more ↦
        same_more p q n m (ground (arith, on))
          (same_of_zero n (suc p) (suc q) m (rw (more, on) at e))
  ]
]

equal_difference : (a b : ℕ) → a ≡ b → difference a b ≡ pos 0
equal_difference a b e =
    let off : ltb a b ≡ false = ground (arith, e) in
    let d : a - b ≡ 0 = omega (arith, e) in rw (off, d) refl

first_same : (p q n : ℕ) (m : Memory) → SameString p q (suc n) m → m p ≡ m q
first_same p q n m same =
    (let e : p + 0 ≡ p = omega arith in
      let f : q + 0 ≡ q = omega arith in
      ap m (sym e) ∙ same 0 (omega arith) (λ i lt. absurd (omega arith)) ∙ ap m f)

zero_of_same : (n p q : ℕ) (m : Memory) → SameString p q n m → strncmp p q n m ≡ pos 0
unfolding strncmp
zero_of_same zero p q m same = refl
zero_of_same (suc n) p q m same =
    let at_first : m p ≡ m q = first_same p q n m same in
    let first : (m p == m q) ≡ true = ground (arith, at_first) in
    elim (Bool-cases (m p == 0)) [
      | inl nul ↦ rw nul (equal_difference (m p) (m q) at_first)
      | inr more ↦ rw (more, first) (zero_of_same n (suc p) (suc q) m (same_rest p q n m more same))
    ]

-- strncmp answers 0 if and only if the two strings agree in their first `n` bytes, up to the first NUL.
pub strncmp_iff : (p q n : ℕ) (m : Memory) → (strncmp p q n m ≡ pos 0) ↔ SameString p q n m
strncmp_iff p q n m = (same_of_zero n p q m, zero_of_same n p q m)
