-- ===== src/Pipe/Fifo.antt =====
-- pipewrite and piperead on the queue that the pipe stands for.
use monitors_and_ipc.Prelude.{
  ℕ, suc, ◌+◌, ◌≤◌, ◌≡◌, ◌⊎◌, inl, inr, ◌∙◌, sym, refl, ap, Bool, true, false, not, ◌&&◌, ◌||◌,
  Option, none, some, List, [], ◌∷◌, ◌++◌, map, arith, length, Bool-cases,
}
use mathlib.Core.List.{append_assoc, append-nil}
use monitors_and_ipc.Pipe.{
  Pipe, put, front, advance, is_full, is_empty, WriteEnd, ReadEnd, refused, finished, asleep,
  pipewrite, copy_loop, piperead,
}
use monitors_and_ipc.Pipe.Contents.{
  IsPipe, contents, put-IsPipe, contents-put, advance-IsPipe, contents-advance, contents_empty,
  empty_contents,
}

-- There are no bytes left, or the next one cannot be copied in.
abbrev pub IsStopped : List (Option ℕ) → Type 0
IsStopped [] = Unit {0}
IsStopped (none ∷ cs) = Unit {0}
IsStopped (some ch ∷ cs) = ⊥

-- How pipewrite ends with the bytes `ws` written since there were `i`, and `rest` left.
abbrev pub Stopped : (ℕ → Bool) → Pipe → ℕ → List ℕ → List (Option ℕ) → Pipe × WriteEnd → Type 0
Stopped killed p i ws rest (q, WriteEnd.refused) =
    (j : ℕ) × (j ≡ i + length ws) × ((not p.readopen || killed j) ≡ true)
Stopped killed p i ws rest (q, WriteEnd.finished j) = (j ≡ i + length ws) × IsStopped rest
Stopped killed p i ws rest (q, WriteEnd.asleep j left) =
    (j ≡ i + length ws) × (left ≡ rest) × (is_full q ≡ true)

abbrev pub Written : (ℕ → Bool) → Pipe → ℕ → List (Option ℕ) → Pipe × WriteEnd → Type 0
Written killed p i cs (q, end) =
    (ws : List ℕ) × (rest : List (Option ℕ)) × (cs ≡ map some ws ++ rest)
    × IsPipe q
    × (contents q ≡ contents p ++ ws)
    × Stopped killed p i ws rest (q, end)

write_none :
    (killed : ℕ → Bool) (p : Pipe) (i : ℕ) (cs : List (Option ℕ)) (end : WriteEnd)
    → IsPipe p
    → Stopped killed p i [] cs (p, end)
    → Written killed p i cs (p, end)
write_none killed p i cs end h stop = ([], cs, refl, h, sym (append-nil (contents p)), stop)

ends_later :
    (killed : ℕ → Bool) (p : Pipe) (i ch : ℕ) (ws : List ℕ) (rest : List (Option ℕ)) (q : Pipe)
    (end : WriteEnd)
    → Stopped killed (put ch p) (suc i) ws rest (q, end)
    → Stopped killed p i (ch ∷ ws) rest (q, end)
ends_later killed p i ch ws rest q WriteEnd.refused (j, e, stop) = (j, omega arith, stop)
ends_later killed p i ch ws rest q (WriteEnd.finished j) (e, at_end) = (omega arith, at_end)
ends_later killed p i ch ws rest q (WriteEnd.asleep j left) (e, same, full) =
    (omega arith, same, full)

write_one :
    (killed : ℕ → Bool) (p : Pipe) (i ch : ℕ) (cs : List (Option ℕ)) (r : Pipe × WriteEnd)
    → IsPipe p
    → is_full p ≡ false
    → Written killed (put ch p) (suc i) cs r
    → Written killed p i (some ch ∷ cs) r
write_one killed p i ch cs (q, end) h room (ws, rest, e, h', f, stop) = (
  ch ∷ ws,
  rest,
  ap (λ xs. some ch ∷ xs) e,
  h',
  f ∙ rw (contents-put p h ch room) (append_assoc (contents p) (ch ∷ []) ws),
  ends_later killed p i ch ws rest q end stop,
)

-- pipewrite on a sound pipe writes the first bytes of its input behind those in the pipe, which stays
-- sound, with at most PIPESIZE bytes in it. It returns -1 only if the reading end is closed or the
-- process is killed when it asks before the next byte, and the number of bytes written when there
-- are none left or copyin fails; it sleeps, with that number and the bytes left, when the pipe is full.
pub pipewrite_fifo :
    (killed : ℕ → Bool) (cs : List (Option ℕ)) (i : ℕ) (p : Pipe)
    → IsPipe p
    → Written killed p i cs (pipewrite killed cs i p)
unfolding pipewrite
pipewrite_fifo killed [] i p h = write_none killed p i [] (finished i) h (omega arith, tt)
pipewrite_fifo killed (none ∷ cs) i p h = elim (Bool-cases (not p.readopen || killed i)) [
  | inl e ↦ rw e (write_none killed p i (none ∷ cs) refused h (i, omega arith, e))
  | inr e ↦ elim (Bool-cases (is_full p)) [
    | inl f ↦
        rw (e, f)
          (write_none killed p i (none ∷ cs) (asleep i (none ∷ cs)) h (omega arith, refl, f))
    | inr f ↦ rw (e, f) (write_none killed p i (none ∷ cs) (finished i) h (omega arith, tt))
  ]
]
pipewrite_fifo killed (some ch ∷ cs) i p h = elim (Bool-cases (not p.readopen || killed i)) [
  | inl e ↦ rw e (write_none killed p i (some ch ∷ cs) refused h (i, omega arith, e))
  | inr e ↦ elim (Bool-cases (is_full p)) [
    | inl f ↦
        rw (e, f)
          (write_none killed p i (some ch ∷ cs) (asleep i (some ch ∷ cs)) h (omega arith, refl, f))
    | inr f ↦
        rw (e, f)
          (write_one killed p i ch cs (pipewrite killed cs (suc i) (put ch p)) h f
            (pipewrite_fifo killed cs (suc i) (put ch p) (put-IsPipe p h ch f)))
  ]
]

-- Some byte cannot be copied out.
abbrev pub fails : List Bool → Bool
fails [] = false
fails (b ∷ outs) = not b || fails outs

-- What was in `p` is `got`, then at most one byte that is lost when copyout fails, then what is in `q`;
-- if copyout does not fail, as many bytes were asked for, or none is left.
abbrev pub Copied : List Bool → Pipe → Pipe × List ℕ → Type 0
Copied outs p (q, got) =
    IsPipe q
    × ((lost : List ℕ) × (contents p ≡ got ++ lost ++ contents q)
        × ((fails outs ≡ true) × (length lost ≤ 1)
            ⊎ (lost ≡ [])
              × ((length got ≡ length outs) ⊎ (length got ≤ length outs) × (contents q ≡ []))))

abbrev Ending : List Bool → List ℕ → List ℕ → Pipe → Type 0
Ending outs got lost q =
    (fails outs ≡ true) × (length lost ≤ 1)
    ⊎ (lost ≡ []) × ((length got ≡ length outs) ⊎ (length got ≤ length outs) × (contents q ≡ []))

copied_later :
    (b : ℕ) (got : List ℕ) (q : Pipe) (outs : List Bool) (lost : List ℕ)
    → Ending outs got lost q
    → Ending (true ∷ outs) (b ∷ got) lost q
copied_later b got q outs lost (inl how) = inl how
copied_later b got q outs lost (inr (e, inl all)) = inr (e, inl (omega arith))
copied_later b got q outs lost (inr (e, inr (some_of, none_left))) =
    inr (e, inr (omega arith, none_left))

copy_fifo : (outs : List Bool) (p : Pipe) → IsPipe p → Copied outs p (copy_loop outs p)
unfolding copy_loop
copy_fifo [] p h = (h, ([], refl, inr (refl, inl refl)))
copy_fifo (false ∷ outs) p h = elim (Bool-cases (is_empty p)) [
  | inl e ↦ rw e (h, ([], refl, inl (refl, omega arith)))
  | inr e ↦
      rw e (advance-IsPipe p h e, (front p ∷ [], contents-advance p h e, inl (refl, omega arith)))
]
copy_fifo (true ∷ outs) p h = elim (Bool-cases (is_empty p)) [
  | inl e ↦ rw e (h, ([], refl, inr (refl, inr (omega arith, contents_empty p h e))))
  | inr e ↦ rw e (
      let (h', (lost, f, how)) = copy_fifo outs (advance p) (advance-IsPipe p h e) in
      (
        h',
        (
          lost,
          contents-advance p h e ∙ ap (λ xs. front p ∷ xs) f,
          copied_later (front p) (copy_loop outs (advance p)).1 (copy_loop outs (advance p)).0 outs
              lost how,
        ),
      ))
]

and_true : (a b : Bool) → (a && b) ≡ true → (a ≡ true) × (b ≡ true)
and_true true b e = (refl, e)
and_true false b e = grind arith

no_writer : (a b : Bool) → (a && b) ≡ false → a ≡ true → b ≡ false
no_writer true b e h = e
no_writer false b e h = grind arith

abbrev pub Read : Bool → List Bool → Pipe → Pipe × ReadEnd → Type 0
Read killed outs p (q, ReadEnd.refused) =
    (q ≡ p) × (contents p ≡ []) × (p.writeopen ≡ true) × (killed ≡ true)
Read killed outs p (q, ReadEnd.asleep) =
    (q ≡ p) × (contents p ≡ []) × (p.writeopen ≡ true) × (killed ≡ false)
Read killed outs p (q, ReadEnd.finished got) =
    ((contents p ≡ []) → p.writeopen ≡ false) × Copied outs p (q, got)

-- piperead on a sound pipe that is empty and open for writing returns -1 if the process is killed, and
-- sleeps else. On any other it returns the oldest bytes in order, as many as asked for or all that there
-- are, and takes them off; if copyout fails, it may lose one byte more. The pipe stays sound.
pub piperead_fifo :
    (killed : Bool) (outs : List Bool) (p : Pipe)
    → IsPipe p
    → Read killed outs p (piperead killed outs p)
unfolding piperead
piperead_fifo killed outs p h = elim (Bool-cases (is_empty p && p.writeopen)) [
  | inl e ↦
      let (empty, writer) = and_true (is_empty p) p.writeopen e in
      let none_left = contents_empty p h empty in
      elim (Bool-cases killed) [
        | inl k ↦ rw (e, k) (refl, none_left, writer, refl)
        | inr k ↦ rw (e, k) (refl, none_left, writer, refl)
      ]
  | inr e ↦ rw e (
    λ none_left. no_writer (is_empty p) p.writeopen e (empty_contents p h none_left),
    copy_fifo outs p h,
  )
]
