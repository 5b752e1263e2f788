-- ===== src/Chat/Crowded.antt =====
-- A queue with more than one message, and a line that fills the buffer.
use monitors_and_ipc.Prelude.{
  ℕ, suc, ◌≡◌, refl, some, List, ◌∷◌, length, arith, ==_refl, lt→ltb, Bool, true, false, ◌==◌, ◌≤◌,
  ltb, Bool-cases, inl, inr, take, drop, ◌++◌,
}
use monitors_and_ipc.NodePool.{Cmd, Pool, Run, done, fault, out_of_fuel, and_then, max_nodes}
use monitors_and_ipc.NodePool.Shape.{Shape, Ends}
use monitors_and_ipc.NodePool.Move.{list_count, list_first}
use monitors_and_ipc.NodePool.Move.Walk.{stood, stood-Shape, list_first_to}
use monitors_and_ipc.NodePool.Remove.{list_remove, unlink_node}
use monitors_and_ipc.NodePool.Remove.Only.{stranded, stranded_eq}
use monitors_and_ipc.Chat.{
  Store, pack, keyboard, speaker, take_message, save, line, max_line, after_line, set_byte,
  exit_or_go_on, is_exit,
}
use monitors_and_ipc.Chat.Relay.{take_steps, IsIdle, save_one}

module _ (p : Pool) (l i j x : ℕ) (ks : List ℕ) (s : Shape p l i (j ∷ ks))
    (looped : (p.pool_nodes i).prev ≡ some i) (held : (p.pool_nodes i).item ≡ some x) where
  abbrev after : Pool
  after = stranded l i j (suc (length ks)) (stood l (some i) p)

  first_take : take_message (some l) p ≡ done (some x) after
  first_take =
      rw
        (
          take_steps l (suc (length ks)) (p.pool_nodes i).item p (stood l (some i) p) s.count
              (list_first_to l i (j ∷ ks) p s),
          stranded_eq l (stood l (some i) p) i j ks (stood-Shape p l i (j ∷ ks) (some i) s) looped
              (ground arith) (ground arith) (ground arith),
          held,
        )
        refl

  second_take : take_message (some l) after ≡ fault
  unfolding take_message list_count list_first list_remove unlink_node
  second_take = simp (
    ==_refl l,
    s.head,
    ==_refl i,
    lt→ltb i max_nodes s.bounded.0,
    lt→ltb j max_nodes s.bounded.1.0,
  )

  -- With at least two messages in the outgoing queue, the first of its nodes its own `prev`, as
  -- ListAppend leaves it, speaker_thread sends the first one, and in its next round reads through NULL.
  pub speaks_once :
      (t : Store)
      → Ends
          (λ d q. (d ≡ some (pack (t.messages x))) × (speaker (some l) t q ≡ fault))
          (speaker (some l) t p)
  unfolding speaker
  speaks_once t = rw first_take (refl, rw second_take refl)

abbrev pub is_fault : {A : Type 0} → Run A → Bool
is_fault (done a q) = false
is_fault fault = true
is_fault out_of_fuel = false

-- Behind a command that ends, the next one decides.
faults_after :
    {A B : Type 0} (P : A → Pool → Type 0) (b : Bool) (r : Run A) (next : A → Cmd B)
    → ((a : A) (q : Pool) → is_fault (next a q) ≡ b)
    → Ends P r
    → is_fault (and_then r next) ≡ b
faults_after P b (done a q) next h e = h a q
faults_after P b fault next h e = absurd e
faults_after P b out_of_fuel next h e = absurd e

write_end :
    (text : List ℕ) (t : Store) (q : Pool)
    → length text ≤ max_line
    → is_fault (after_line text t q) ≡ (length text == max_line)
unfolding after_line set_byte
write_end text t q le = elim (Bool-cases (ltb (length text) max_line)) [
  | inl inside ↦
      let short : (length text == max_line) ≡ false = ground (arith, inside) in
      rw (inside, short) (no_fault (take (length text) text ++ 0 ∷ drop (suc (length text)) text))
  | inr outside ↦
      let full : (length text == max_line) ≡ true = ground (arith, outside, le) in
      rw (outside, full) refl
]
  where
    no_fault : (buffer : List ℕ) → is_fault (exit_or_go_on buffer t q) ≡ false
    no_fault buffer = elim (Bool-cases (is_exit buffer)) [ inl e ↦ rw e refl | inr e ↦ rw e refl ]

-- With an empty queue and a free node, keyboard_input that reads a line of at most MAXLINE bytes, as it
-- asks for, writes outside its buffer exactly when the line has MAXLINE bytes.
pub full_line_faults :
    (l f : ℕ) (fs : List ℕ) (p : Pool) (s : Store) (sec usec : ℕ) (text : List ℕ)
    → IsIdle l (f ∷ fs) p
    → length text ≤ max_line
    → is_fault (keyboard (some l) sec usec (line text) s p) ≡ (length text == max_line)
unfolding keyboard
full_line_faults l f fs p s sec usec text idle le =
    faults_after _ (length text == max_line) (save (some l) _ s p) (after_line text)
      (λ t q. write_end text t q le) (save_one l f fs p s idle _)
