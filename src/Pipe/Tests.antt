-- ===== src/Pipe/Tests.antt =====
-- Runs of a pipe.
use monitors_and_ipc.Prelude.{◌≡◌, refl, true, false, none, some, [], ◌∷◌, arith}
use monitors_and_ipc.Pipe.{copy_loop, Pipe, opened, put, ReadEnd, pipewrite, piperead}
use monitors_and_ipc.Pipe.Contents.{IsPipe}
use monitors_and_ipc.Pipe.Fifo.{pipewrite_fifo, piperead_fifo, Written, Read}

-- A new page, and its pipe with one byte in it whose counters are about to wrap around.
abbrev new_pipe : Pipe
new_pipe = opened (λ k. 5)

abbrev wrapping : Pipe
wrapping = put 65 (record {
  bytes = λ k. 5;
  nread = 4294967295;
  nwrite = 4294967295;
  readopen = true;
  writeopen = true;
})

new_pipe-IsPipe : IsPipe new_pipe
new_pipe-IsPipe = record {
  nread_fits = omega arith;
  nwrite_fits = omega arith;
  bounded = omega arith;
}

wrapping-IsPipe : IsPipe wrapping
wrapping-IsPipe = record {
  nread_fits = omega arith;
  nwrite_fits = omega arith;
  bounded = omega arith;
}

-- Three bytes, and then copyin fails.
pipewrite_fifo_example :
    Written
      (λ i. false)
      new_pipe
      0
      (some 65 ∷ some 66 ∷ some 67 ∷ none ∷ [])
      (pipewrite (λ i. false) (some 65 ∷ some 66 ∷ some 67 ∷ none ∷ []) 0 new_pipe)
pipewrite_fifo_example =
    pipewrite_fifo (λ i. false) (some 65 ∷ some 66 ∷ some 67 ∷ none ∷ []) 0 new_pipe new_pipe-IsPipe

-- Two bytes are asked for, and one is there.
piperead_fifo_example :
    Read false (true ∷ true ∷ []) wrapping (piperead false (true ∷ true ∷ []) wrapping)
piperead_fifo_example = piperead_fifo false (true ∷ true ∷ []) wrapping wrapping-IsPipe

piperead_result : (piperead false (true ∷ true ∷ []) wrapping).1 ≡ ReadEnd.finished (65 ∷ [])
unfolding piperead copy_loop
piperead_result = refl
