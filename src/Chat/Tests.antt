-- ===== src/Chat/Tests.antt =====
-- The threads on small inputs.
use monitors_and_ipc.Prelude.{
  ℕ, ◌≡◌, refl, inl, inr, false, none, some, List, [], ◌∷◌, arith, take, replicate, length, ◌==◌,
}
use monitors_and_ipc.NodePool.{Pool, fault}
use monitors_and_ipc.NodePool.Shape.{Ends}
use monitors_and_ipc.NodePool.Tests.Samples.{sample, sample-Shape, sample_free}
use monitors_and_ipc.Chat.{
  ChatMessage, Store, line, pack, unpack, keyboard, listener, speaker, display, max_line, printed,
  until_nul,
}
use monitors_and_ipc.Chat.Packet.{IsMessage, unpack-pack}
use monitors_and_ipc.Chat.Relay.{IsIdle, message_arrives}
use monitors_and_ipc.Chat.Crowded.{speaks_once, full_line_faults, is_fault}

abbrev greeting : ChatMessage
greeting = record { sec = 1700000000; usec = 250000; msglen = 3; msg = b'h' ∷ b'i' ∷ 10 ∷ [] }

greeting-IsMessage : IsMessage greeting
greeting-IsMessage = record {
  sec_fits = omega arith;
  usec_fits = omega arith;
  counted = refl;
  fits = omega arith;
}

unpack-pack_example : unpack (pack greeting) ≡ some greeting
unfolding pack
unpack-pack_example = unpack-pack greeting greeting-IsMessage

pack_result : pack greeting ≡ 101 ∷ 83 ∷ 241 ∷ 0 ∷ 0 ∷ 3 ∷ 208 ∷ 144 ∷ 0 ∷ 3 ∷ 104 ∷ 105 ∷ 10 ∷ []
unfolding pack
pack_result = refl

abbrev empty_store : Store
empty_store = record {
  messages = λ n. greeting;
  behind = λ n. b'!' ∷ 0 ∷ [];
  fresh = 40;
  shutdown_flag = false;
}

abbrev quiet : Pool
quiet = sample none none none

quiet-IsIdle : IsIdle 2 (8 ∷ 9 ∷ []) quiet
quiet-IsIdle = (refl, sample_free none none none)

message_arrives_example :
    Ends
      (λ (t, goes_on) q.
        Ends
          (λ sending q'.
            (packet : List ℕ) × (sending ≡ some packet)
            × Ends
                (λ t' r.
                  Ends
                    (λ showing r'. showing ≡ some (printed (b'!' ∷ 0 ∷ []) greeting))
                    (display (some 2) t' r))
                (listener (some 2) (some (take max_line packet)) empty_store quiet))
          (speaker (some 2) t q))
      (keyboard (some 2) 1700000000 250000 (line greeting.msg) empty_store quiet)
message_arrives_example =
    message_arrives 2 8 (9 ∷ []) quiet empty_store 2 8 (9 ∷ []) quiet empty_store greeting
      quiet-IsIdle quiet-IsIdle greeting-IsMessage (omega arith)

speaks_once_example :
    Ends
      (λ d q. (d ≡ some (pack greeting)) × (speaker (some 0) empty_store q ≡ fault))
      (speaker (some 0) empty_store (sample (some 5) none none))
speaks_once_example =
    speaks_once (sample (some 5) none none) 0 5 6 10 (7 ∷ [])
      (sample-Shape (some 5) none none (inr refl) (inl refl)) refl refl empty_store

-- `n` times the letter x.
abbrev filler : ℕ → List ℕ
filler n = replicate n b'x'

full_line_faults_example :
    is_fault (keyboard (some 2) 0 0 (line (filler max_line)) empty_store quiet)
    ≡ (length (filler max_line) == max_line)
full_line_faults_example =
    full_line_faults 2 8 (9 ∷ []) quiet empty_store 0 0 (filler max_line) quiet-IsIdle (omega arith)

printed_result : (printed (b'!' ∷ 0 ∷ []) greeting).text ≡ b'h' ∷ b'i' ∷ 10 ∷ b'!' ∷ []
unfolding until_nul
printed_result = refl
