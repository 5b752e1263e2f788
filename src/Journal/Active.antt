-- ===== src/Journal/Active.antt =====
-- The blocks that the operations under way have written, and may still write.
use monitors_and_ipc.Prelude.{ℕ, ◌+◌, ◌-◌, ◌*◌, ◌≡◌, ◌≤◌, arith, List, [], ◌∷◌, ◌++◌, length, All}
use monitors_and_ipc.Journal.{max_op_blocks}

-- The blocks that the operations may still write.
abbrev pub room : List (List ℕ) → ℕ
room [] = 0
room (bs ∷ ops) = max_op_blocks - length bs + room ops

pub room_le : (ops : List (List ℕ)) → room ops ≤ length ops * max_op_blocks
room_le [] = omega arith
room_le (bs ∷ ops) = omega (arith, room_le ops)

pub room_at :
    (before after : List (List ℕ)) (bs : List ℕ)
    → room (before ++ bs ∷ after) ≡ room before + (max_op_blocks - length bs + room after)
room_at [] after bs = omega arith
room_at (x ∷ before) after bs = omega (arith, room_at before after bs)

pub room-append : (before after : List (List ℕ)) → room (before ++ after) ≡ room before + room after
room-append [] after = omega arith
room-append (x ∷ before) after = omega (arith, room-append before after)

pub All-at :
    (P : List ℕ → Type 0) (before after : List (List ℕ)) (bs : List ℕ)
    → All P (before ++ bs ∷ after)
    → P bs
All-at P [] after bs (h, rest) = h
All-at P (x ∷ before) after bs (h, rest) = All-at P before after bs rest

pub All-map :
    {P Q : List ℕ → Type 0} (xs : List (List ℕ)) → ((x : List ℕ) → P x → Q x) → All P xs → All Q xs
All-map [] f h = tt
All-map (x ∷ xs) f (h, rest) = (f x h, All-map xs f rest)

pub All-put :
    {P Q : List ℕ → Type 0} (before after : List (List ℕ)) (bs cs : List ℕ)
    → ((xs : List ℕ) → P xs → Q xs)
    → All P (before ++ bs ∷ after)
    → Q cs
    → All Q (before ++ cs ∷ after)
All-put [] after bs cs f (h, rest) new = (new, All-map after f rest)
All-put (x ∷ before) after bs cs f (h, rest) new = (f x h, All-put before after bs cs f rest new)

pub All-drop :
    (P : List ℕ → Type 0) (before after : List (List ℕ)) (bs : List ℕ)
    → All P (before ++ bs ∷ after)
    → All P (before ++ after)
All-drop P [] after bs (h, rest) = rest
All-drop P (x ∷ before) after bs (h, rest) = (h, All-drop P before after bs rest)
