-- ===== src/Pipe/Closing.antt =====
-- What closing an end of a pipe does to the reader and the writer at the other.
use monitors_and_ipc.Prelude.{ℕ, ◌≡◌, refl, Bool, true, false, Option, none, some, List, [], ◌∷◌}
use monitors_and_ipc.Pipe.{
  Pipe, WriteEnd, ReadEnd, pipewrite, piperead, pipeclose, copy_loop, is_empty,
}
use monitors_and_ipc.Pipe.Contents.{IsPipe, contents, empty_contents}

-- The pipe `q` that is left when the writer closes `p`.
abbrev pub Drained : Pipe → Pipe → Type 0
Drained p q =
    IsPipe q
    × (contents q ≡ contents p)
    × ((killed : Bool) (outs : List Bool)
        → contents p ≡ []
        → piperead killed outs q ≡ (q, ReadEnd.finished []))
    × (pipeclose false q ≡ none)

nothing_copied : (outs : List Bool) (p : Pipe) → is_empty p ≡ true → copy_loop outs p ≡ (p, [])
unfolding copy_loop
nothing_copied [] p e = refl
nothing_copied (false ∷ outs) p e = rw e refl
nothing_copied (true ∷ outs) p e = rw e refl

-- Closing the writing end of a sound pipe whose reading end is open keeps the pipe sound and its bytes
-- in it. A later piperead returns 0 as soon as they are read, and does not sleep, and closing the reading
-- end frees the page.
pub close_writer :
    (p : Pipe)
    → IsPipe p
    → p.readopen ≡ true
    → (q : Pipe) × (pipeclose true p ≡ some q) × Drained p q
unfolding pipeclose piperead contents
close_writer p h reader = (
  record p { writeopen = false },
  rw reader refl,
  (
    record { nread_fits = h.nread_fits; nwrite_fits = h.nwrite_fits; bounded = h.bounded },
    refl,
    λ killed outs none_left.
        let e = empty_contents p h none_left in
        rw (e, nothing_copied outs (record p { writeopen = false }) e) refl,
    refl,
  ),
)

-- Closing the reading end of a sound pipe whose writing end is open keeps the page, and a later pipewrite
-- of at least one byte returns -1 and writes nothing; closing the writing end then frees the page.
pub close_reader :
    (p : Pipe) (c : Option ℕ) (cs : List (Option ℕ))
    → p.writeopen ≡ true
    → (q : Pipe) × (pipeclose false p ≡ some q)
      × ((killed : ℕ → Bool) (i : ℕ) → pipewrite killed (c ∷ cs) i q ≡ (q, WriteEnd.refused))
      × (pipeclose true q ≡ none)
unfolding pipeclose pipewrite
close_reader p none cs writer =
    (record p { readopen = false }, rw writer refl, λ killed i. refl, refl)
close_reader p (some ch) cs writer =
    (record p { readopen = false }, rw writer refl, λ killed i. refl, refl)
