-- ===== src/Sieve/Tests.antt =====
-- The sieve up to 3, one process after the other.
use monitors_and_ipc.Prelude.{ℕ, ◌≡◌, ◌+◌, ◌*◌, ◌-◌, ◌≤◌, ◌⊎◌, refl, List, [], ◌∷◌, ◌++◌}
use monitors_and_ipc.Sieve.{booted, exited, run, step, chain_step, first_step}
use monitors_and_ipc.Sieve.Runs.{primes_to, run_prints}
use monitors_and_ipc.Sieve.Ends.{IsLive, primes_end, steps_taken}

-- The schedule has more steps than the processes can make.
abbrev in_turn : List ℕ
in_turn = 0 ∷ 0 ∷ 0 ∷ 1 ∷ 1 ∷ 1 ∷ 2 ∷ 1 ∷ 2 ∷ 3 ∷ 2 ∷ 1 ∷ 0 ∷ 0 ∷ []

run_prints_example : (later : List ℕ) × ((run 3 in_turn booted).printed ++ later ≡ primes_to 3)
run_prints_example = run_prints 3 in_turn

primes_end_example :
    (steps_taken 3 in_turn booted ≤ (3 - 1) * (3 - 1) + 4 * (3 - 1) + 3)
    × ((((run 3 in_turn booted).main ≡ exited) × ((run 3 in_turn booted).printed ≡ primes_to 3))
        ⊎ IsLive 3 (run 3 in_turn booted))
primes_end_example = primes_end 3 in_turn

in_turn-run : (run 3 in_turn booted).main ≡ exited
unfolding run step chain_step first_step
in_turn-run = refl

in_turn-prints : (run 3 in_turn booted).printed ≡ 2 ∷ 3 ∷ []
unfolding run step chain_step first_step
in_turn-prints = refl
