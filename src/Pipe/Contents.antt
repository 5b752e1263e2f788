-- ===== src/Pipe/Contents.antt =====
-- A pipe as the queue of the bytes that are written and not yet read.
use monitors_and_ipc.Prelude.{
  ℕ, zero, suc, ◌+◌, ◌-◌, ◌%◌, ◌^◌, ◌<◌, ◌≤◌, ◌≡◌, ◌∙◌, sym, refl, ap, true, false, List, [], ◌∷◌,
  ◌++◌, ◌==◌, arith, length, length-append,
}
use monitors_and_ipc.Pipe.{Pipe, pipesize, uint, put, front, advance, is_full, is_empty}

-- `f 0`, …, `f (n - 1)`.
pub tabulate : ℕ → (ℕ → ℕ) → List ℕ
tabulate zero f = []
tabulate (suc n) f = tabulate n f ++ f n ∷ []

-- How many bytes are in the pipe.
abbrev pub count : Pipe → ℕ
count p = (p.nwrite + 2 ^ 32 - p.nread) % 2 ^ 32

abbrev pub byte : Pipe → ℕ → ℕ
byte p i = p.bytes (uint (p.nread + i) % pipesize)

-- The bytes of the pipe, the oldest first.
unfoldable pub contents : Pipe → List ℕ
contents p = tabulate (count p) (byte p)

-- The counters are in range, and at most PIPESIZE apart.
pub record IsPipe (p : Pipe) : Type 0 where
  pub nread_fits : p.nread < 2 ^ 32
  pub nwrite_fits : p.nwrite < 2 ^ 32
  pub bounded : count p ≤ pipesize

tabulate_cong : (n : ℕ) (f g : ℕ → ℕ) → ((i : ℕ) → i < n → f i ≡ g i) → tabulate n f ≡ tabulate n g
unfolding tabulate
tabulate_cong zero f g same = refl
tabulate_cong (suc n) f g same =
    cc (tabulate_cong n f g (λ i lt. same i (omega arith)), same n (omega arith))

tabulate-suc : (n : ℕ) (f : ℕ → ℕ) → tabulate (suc n) f ≡ f 0 ∷ tabulate n (λ i. f (suc i))
unfolding tabulate
tabulate-suc zero f = refl
tabulate-suc (suc n) f = ap (λ xs. xs ++ f (suc n) ∷ []) (tabulate-suc n f)

length-tabulate : (n : ℕ) (f : ℕ → ℕ) → length (tabulate n f) ≡ n
unfolding tabulate
length-tabulate zero f = refl
length-tabulate (suc n) f =
    omega (arith, length-append {0} (tabulate n f) (f n ∷ []), length-tabulate n f)

pub length-contents : (p : Pipe) → length (contents p) ≡ count p
unfolding contents
length-contents p = length-tabulate (count p) (byte p)

module _ (p : Pipe) (h : IsPipe p) where
  count-put : (ch : ℕ) → is_full p ≡ false → count (put ch p) ≡ suc (count p)
  count-put ch room = ground arith

  pub put-IsPipe : (ch : ℕ) → is_full p ≡ false → IsPipe (put ch p)
  put-IsPipe ch room = record {
    nread_fits = h.nread_fits;
    nwrite_fits = omega arith;
    bounded = ground arith;
  }

  -- The byte written goes behind the others, over none of them.
  slot_free :
      (i : ℕ)
      → i < count p
      → is_full p ≡ false
      → (p.nwrite % 512 == (p.nread + i) % 2 ^ 32 % 512) ≡ false
  slot_free i lt room = ground arith

  slot_next : (p.nwrite % 512 == (p.nread + count p) % 2 ^ 32 % 512) ≡ true
  slot_next = ground arith

  pub contents-put : (ch : ℕ) → is_full p ≡ false → contents (put ch p) ≡ contents p ++ ch ∷ []
  unfolding contents tabulate
  contents-put ch room =
      let old : tabulate (count p) (byte (put ch p)) ≡ tabulate (count p) (byte p) =
        tabulate_cong (count p) (byte (put ch p)) (byte p)
          (λ i lt. rw (slot_free i lt room) refl) in
      let new : byte (put ch p) (count p) ≡ ch = rw slot_next refl in
      rw (count-put ch room) (cc (old, new))

  pub advance-IsPipe : is_empty p ≡ false → IsPipe (advance p)
  advance-IsPipe some_left = record {
    nread_fits = omega arith;
    nwrite_fits = h.nwrite_fits;
    bounded = ground arith;
  }

  first_index : (p.nread + 0) % 2 ^ 32 ≡ p.nread
  first_index = omega (arith, h.nread_fits)

  next_index : (i : ℕ) → (p.nread + suc i) % 2 ^ 32 ≡ ((p.nread + 1) % 2 ^ 32 + i) % 2 ^ 32
  next_index i = omega arith

  pub contents-advance : is_empty p ≡ false → contents p ≡ front p ∷ contents (advance p)
  unfolding contents
  contents-advance some_left =
      let one_more : count p ≡ suc (count (advance p)) = ground arith in
      rw one_more (
        tabulate-suc (count (advance p)) (byte p)
        ∙ cc (
          (let e : byte p 0 ≡ front p = ap (λ k. p.bytes (k % 512)) (first_index) in e),
          tabulate_cong (count (advance p)) (λ i. byte p (suc i)) (byte (advance p))
              (λ i lt. ap (λ k. p.bytes (k % 512)) (next_index i)),
        ))

  pub contents_empty : is_empty p ≡ true → contents p ≡ []
  unfolding contents tabulate
  contents_empty e = let none_left : count p ≡ 0 = ground arith in rw none_left refl

  pub empty_contents : contents p ≡ [] → is_empty p ≡ true
  empty_contents e =
      let none_left : count p ≡ 0 = omega (arith, sym (length-contents p), ap length e) in
      ground arith
