-- ===== src/Monitor/Hoare.antt =====
-- What a monitor with Hoare's signalling does: one owner, and first-in first-out queues told apart
-- by numbers. Queue 0 waits to enter, queue 1 has signalled, queue c + 2 waits on condition c.
use monitors_and_ipc.Prelude.{
  ℕ, ◌+◌, ◌<◌, ◌≤◌, Option, none, some, List, [], ◌∷◌, ◌++◌, length, ltb, update, if◌then◌else◌,
  pos, minus_one, ◌&&◌,
}
use monitors_and_ipc.Monitor.{Replies, owns}

pub record Hoare : Type 0 where
  pub owner : Option ℕ
  pub waiting : ℕ → List ℕ
  pub num : ℕ

-- The next owner: the first that signalled, else the first that waits to enter.
abbrev pub pick : List ℕ → List ℕ → Hoare → Hoare × Replies
pick (u ∷ us) es a = (record a { owner = some u; waiting = update a.waiting 1 us }, (u, pos 0) ∷ [])
pick [] (e ∷ es) a = (record a { owner = some e; waiting = update a.waiting 0 es }, (e, pos 0) ∷ [])
pick [] [] a = (a, [])

abbrev pub hand : Hoare → Hoare × Replies
hand a = pick (a.waiting 1) (a.waiting 0) a

abbrev pub free : Hoare → Hoare
free a = record a { owner = none }

abbrev pub join : ℕ → ℕ → Hoare → Hoare
join q pid a = record a { waiting = update a.waiting q (a.waiting q ++ pid ∷ []) }

abbrev pub admit : Option ℕ → ℕ → Hoare → Hoare × Replies
admit none pid a = (record a { owner = some pid }, (pid, pos 0) ∷ [])
admit (some other) pid a = (join 0 pid a, [])

abbrev pub enter : ℕ → Hoare → Hoare × Replies
enter pid a = admit a.owner pid a

abbrev pub leave : ℕ → Hoare → Hoare × Replies
leave pid a =
    if owns a.owner pid
    then ((hand (free a)).0, (pid, pos 0) ∷ (hand (free a)).1)
    else (a, (pid, minus_one) ∷ [])

abbrev pub wait : ℕ → ℕ → Hoare → Hoare × Replies
wait pid c a =
    if owns a.owner pid && ltb c a.num
    then hand (free (join (c + 2) pid a))
    else (a, (pid, minus_one) ∷ [])

abbrev pub wake : List ℕ → ℕ → ℕ → Hoare → Hoare × Replies
wake [] pid c a = (a, (pid, pos 0) ∷ [])
wake (w ∷ ws) pid c a = (
  join 1 pid (record a { owner = some w; waiting = update a.waiting (c + 2) ws }),
  (w, pos 0) ∷ [],
)

abbrev pub signal : ℕ → ℕ → Hoare → Hoare × Replies
signal pid c a =
    if owns a.owner pid && ltb c a.num
    then wake (a.waiting (c + 2)) pid c a
    else (a, (pid, minus_one) ∷ [])

-- No queue has more than one process in it.
abbrev pub IsSparse : Hoare → Type 0
IsSparse a = (q : ℕ) → q < a.num + 2 → length (a.waiting q) ≤ 1
