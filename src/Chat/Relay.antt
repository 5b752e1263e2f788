-- ===== src/Chat/Relay.antt =====
-- One message through a queue, and from one peer to the other.
use monitors_and_ipc.Prelude.{
  ℕ, suc, ◌<◌, ◌≡◌, ◌∙◌, refl, true, false, Option, none, some, List, [], ◌∷◌, leb, if◌then◌else◌,
  length, take, arith, Bool-cases, inl, inr, ap, ==_refl, Bool, ◌++◌, drop, ltb,
}
use mathlib.Core.Option
use monitors_and_ipc.NodePool.{and_then, Pool, Item, Cmd, done, pure, ◌>>=◌, deref}
use monitors_and_ipc.NodePool.Shape.{Ends, Ends-bind, Ends-mono, Runs, IsFree, Shape}
use monitors_and_ipc.NodePool.Links.{has}
use monitors_and_ipc.NodePool.Add.{list_append}
use monitors_and_ipc.NodePool.Add.Append.{append_lem}
use monitors_and_ipc.NodePool.Move.{list_count, list_first}
use monitors_and_ipc.NodePool.Move.Walk.{stood, stood-Shape, list_first_to}
use monitors_and_ipc.NodePool.Remove.{list_remove}
use monitors_and_ipc.NodePool.Remove.Only.{remove_only}
use monitors_and_ipc.Chat.{
  ChatMessage, Store, pack, unpack, keyboard, listener, speaker, display, take_message, keep, save,
  with_message, line, after_line, sent, shown, max_line, is_exit, exit_or_go_on, set_byte, printed,
}
use monitors_and_ipc.Chat.Packet.{IsMessage, unpack-pack}

-- The queue `l` is empty, and the nodes `fs` are free.
abbrev pub IsIdle : ℕ → List ℕ → Pool → Type 0
IsIdle l fs p = Runs p l [] × IsFree p fs

-- The queue `l` holds the message `x`, in the node `f`.
abbrev pub HoldsOne : (l f x : ℕ) → List ℕ → Pool → Type 0
HoldsOne l f x fs p =
    Shape p l f [] × ((p.pool_nodes f).item ≡ some x) × IsFree p fs × (has f fs ≡ false)

-- The message behind a removed item.
abbrev pub named : Item → Cmd (Option ℕ)
named item = do id ← deref item; pure (some id)

-- A queue that is not empty, step by step.
pub take_steps :
    (l n : ℕ) (y : Item) (p q : Pool)
    → (p.pool_lists l).count ≡ suc n
    → list_first (some l) p ≡ done y q
    → take_message (some l) p ≡ and_then (list_remove (some l) q) named
unfolding take_message list_count
take_steps l n y p q e f = simp (e, f)

take_none : (l : ℕ) (p : Pool) → Runs p l [] → take_message (some l) p ≡ done none p
unfolding take_message list_count
take_none l p e = simp e

module _ (l f x : ℕ) (fs : List ℕ) (p : Pool) where
  put_one :
      IsIdle l (f ∷ fs) p → Ends (λ r q. HoldsOne l f x fs q) (list_append (some l) (some x) p)
  put_one h =
      Ends-mono _ (λ r q. HoldsOne l f x fs q) _ (append_lem l x f p [] fs h.0 h.1 refl)
        λ r q e. (e.1.runs, ground (arith, e.1.items_are), e.1.free, h.1.2)

  take_one :
      HoldsOne l f x fs p
      → Ends (λ r q. (r ≡ some x) × IsIdle l (f ∷ fs) q) (take_message (some l) p)
  take_one h =
      rw
        (take_steps l 0 (p.pool_nodes f).item p (stood l (some f) p) h.0.count
          (list_first_to l f [] p h.0))
        (Ends-bind _ (λ r q. (r ≡ some x) × IsIdle l (f ∷ fs) q)
          (list_remove (some l) (stood l (some f) p)) named
          (remove_only l (stood l (some f) p) f fs (stood-Shape p l f [] (some f) h.0) h.2 h.3
            (ground arith) (ground arith) (ground arith))
          λ y q e. rw (e.0 ∙ h.1) (refl, (e.2.runs, e.2.free)))

-- The items of the queues are messages below `fresh`.
module _ (l f : ℕ) (fs : List ℕ) (p : Pool) (s : Store) (idle : IsIdle l (f ∷ fs) p) where
  -- What is saved in an empty queue, and what the next round takes out.
  pub save_one :
      (m : ChatMessage)
      → Ends (λ t q. (t ≡ with_message m s) × HoldsOne l f s.fresh fs q) (save (some l) m s p)
  save_one m =
      Ends-bind _ (λ t q. (t ≡ with_message m s) × HoldsOne l f s.fresh fs q)
        (list_append (some l) (some s.fresh) p) (λ _. pure (with_message m s))
        (put_one l f s.fresh fs p idle) λ r q h. (refl, h)

  spoken :
      (m : ChatMessage) (t : Store) (q : Pool)
      → t.messages s.fresh ≡ m
      → HoldsOne l f s.fresh fs q
      → Ends (λ d q'. (d ≡ some (pack m)) × IsIdle l (f ∷ fs) q') (speaker (some l) t q)
  unfolding speaker
  spoken m t q e h =
      Ends-bind _ (λ d q'. (d ≡ some (pack m)) × IsIdle l (f ∷ fs) q') (take_message (some l) q)
        (λ id. pure (sent t.messages id)) (take_one l f s.fresh fs q h)
        λ r q' k. rw (k.0) (ap (λ n. some (pack n)) e, k.1)

  -- A line that does not fill the buffer.
  exits_or_goes_on :
      (text : List ℕ) (P : Store × Bool → Pool → Type 0) (t : Store) (q : Pool)
      → length text < max_line
      → ((flag goes_on : Bool) → P (record t { shutdown_flag = flag }, goes_on) q)
      → Ends P (after_line text t q)
  unfolding after_line set_byte
  exits_or_goes_on text P t q short h =
      let inside : ltb (length text) max_line ≡ true = ground (arith, short) in
      rw inside (ended (take (length text) text ++ 0 ∷ drop (suc (length text)) text))
    where
      ended : (buffer : List ℕ) → Ends P (exit_or_go_on buffer t q)
      ended buffer = elim (Bool-cases (is_exit buffer)) [
        | inl e ↦ rw e (h true false)
        | inr e ↦ rw e (h t.shutdown_flag true)
      ]

  -- With an empty outgoing queue and a free node, a line of less than MAXLINE bytes that keyboard_input
  -- reads is what the next round of speaker_thread sends, packed with its time and length; the queue
  -- is then empty again with the same free nodes.
  pub typed_is_sent :
      (sec usec : ℕ) (text : List ℕ)
      → length text < max_line
      → Ends
          (λ (t, goes_on) q.
            Ends
              (λ d q'.
                (d
                  ≡ some
                      (pack (record { sec = sec; usec = usec; msglen = length text; msg = text })))
                × IsIdle l (f ∷ fs) q')
              (speaker (some l) t q))
          (keyboard (some l) sec usec (line text) s p)
  unfolding keyboard speaker
  typed_is_sent sec usec text short =
      let m : ChatMessage = record { sec = sec; usec = usec; msglen = length text; msg = text } in
      Ends-bind _
        (λ (t, goes_on) q.
          Ends (λ d q'. (d ≡ some (pack m)) × IsIdle l (f ∷ fs) q') (speaker (some l) t q))
        (save (some l) m s p) (after_line text) (save_one m)
        λ t q (made, h).
          let at : t.messages s.fresh ≡ m = (rw (made, ==_refl s.fresh) refl) in
          exits_or_goes_on text
            (λ (t, goes_on) q.
              Ends (λ d q'. (d ≡ some (pack m)) × IsIdle l (f ∷ fs) q') (speaker (some l) t q))
            t q short (λ flag goes_on. spoken m (record t { shutdown_flag = flag }) q at h)

  -- With an empty incoming queue and a free node, a packet that listener_thread accepts is what the next
  -- round of display_thread prints, and the queue is then empty again; one that it ignores leaves
  -- the pools and the store as they were.
  pub received_is_shown :
      (packet : List ℕ)
      → Ends
          (λ t q.
            Ends
              (λ m q'.
                (m ≡ Option.map (printed (s.behind s.fresh)) (unpack packet))
                × IsIdle l (f ∷ fs) q')
              (display (some l) t q))
          (listener (some l) (some packet) s p)
  unfolding listener display
  received_is_shown packet = received (unpack packet)
    where
      received :
          (o : Option ChatMessage)
          → Ends
              (λ t q.
                Ends
                  (λ m q'. (m ≡ Option.map (printed (s.behind s.fresh)) o) × IsIdle l (f ∷ fs) q')
                  (display (some l) t q))
              (keep (some l) o s p)
      received none = rw (take_none l p idle.0) (refl, idle)
      received (some m) =
          Ends-bind _
            (λ t q.
              Ends (λ m' q'. (m' ≡ some (printed (s.behind s.fresh) m)) × IsIdle l (f ∷ fs) q')
                (display (some l) t q))
            (list_append (some l) (some s.fresh) p) (λ _. pure (with_message m s))
            (put_one l f s.fresh fs p idle)
            λ _ q h.
              Ends-bind _
                (λ m' q'. (m' ≡ some (printed (s.behind s.fresh) m)) × IsIdle l (f ∷ fs) q')
                (take_message (some l) q) (λ id. pure (shown (with_message m s) id))
                (take_one l f s.fresh fs q h) λ r q' k. rw (k.0) (rw (==_refl s.fresh) refl, k.1)

shown_if :
    (b : Bool) (m : ChatMessage) (behind : List ℕ)
    → Option.map (printed behind) (if b then some m else none)
      ≡ (if b then some (printed behind m) else none)
shown_if true m behind = refl
shown_if false m behind = refl

-- Two peers with empty queues and a free node each, and a packet cut off at the MAXLINE bytes that the
-- listener asks for: a line of less than MAXLINE bytes that the one reads, at a time in 32 bits, is sent.
-- If it has at most 1014 bytes, the other prints its time and its bytes up to the first NUL, and if there
-- is none in it, all its bytes and then what its memory holds behind them, up to a NUL there; a longer
-- line is lost.
pub message_arrives :
    (l f : ℕ) (fs : List ℕ) (p : Pool) (s : Store) (l' f' : ℕ) (fs' : List ℕ) (p' : Pool)
    (s' : Store) (m : ChatMessage)
    → IsIdle l (f ∷ fs) p
    → IsIdle l' (f' ∷ fs') p'
    → IsMessage m
    → m.msglen < max_line
    → Ends
        (λ (t, goes_on) q.
          Ends
            (λ sending q'.
              (packet : List ℕ) × (sending ≡ some packet)
              × Ends
                  (λ t' r.
                    Ends
                      (λ showing r'. showing ≡ (
                        if leb m.msglen 1014 then some (printed (s'.behind s'.fresh) m) else none))
                      (display (some l') t' r))
                  (listener (some l') (some (take max_line packet)) s' p'))
            (speaker (some l) t q))
        (keyboard (some l) m.sec m.usec (line m.msg) s p)
message_arrives l f fs p s l' f' fs' p' s' m idle idle' h short =
    Ends-mono _ _ (keyboard (some l) m.sec m.usec (line m.msg) s p)
      (typed_is_sent l f fs p s idle m.sec m.usec m.msg (omega (arith, h.counted)))
      λ (t, goes_on) q sends. Ends-mono _ _ (speaker (some l) t q) sends λ sending q' e. (
        pack m,
        e.0 ∙ ap (λ n. some (pack (record m { msglen = n }))) h.counted,
        Ends-mono _ _ (listener (some l') (some (take max_line (pack m))) s' p')
            (received_is_shown l' f' fs' p' s' idle' (take max_line (pack m)))
            λ t' r shows. Ends-mono _ _ (display (some l') t' r) shows λ showing r' k.
              k.0
              ∙ ap (Option.map (printed (s'.behind s'.fresh))) (unpack-pack m h)
              ∙ shown_if (leb m.msglen 1014) m (s'.behind s'.fresh),
      )
