-- ===== src/Chat/Packet.antt =====
-- The packets: what the listener makes of what the speaker sends.
use monitors_and_ipc.Prelude.{
  ℕ, ◌+◌, ◌*◌, ◌/◌, ◌%◌, ◌^◌, ◌<◌, ◌≤◌, ◌≡◌, ◌∙◌, refl, Bool, true, false, none, some, List, ◌++◌,
  ltb, leb, if◌then◌else◌, length, take, take_all, length-take, length-take-le, arith, Bool-cases,
  inl, inr,
}
use monitors_and_ipc.Chat.{ChatMessage, pack, unpack, max_line, be32, be16}

-- The fields fit into their types, and `msg` has `msglen` bytes.
pub record IsMessage (m : ChatMessage) : Type 0 where
  pub sec_fits : m.sec < 2 ^ 32
  pub usec_fits : m.usec < 2 ^ 32
  pub counted : length m.msg ≡ m.msglen
  pub fits : m.msglen ≤ max_line

-- The header of a packet, and a text behind it.
abbrev framed : (sec usec len : ℕ) → List ℕ → List ℕ
framed sec usec len text = be32 sec ++ be32 usec ++ be16 len ++ text

word32_lem :
    (n : ℕ)
    → n < 2 ^ 32
    → n / 2 ^ 24 % 256 * 2 ^ 24 + n / 2 ^ 16 % 256 * 2 ^ 16 + n / 2 ^ 8 % 256 * 2 ^ 8 + n % 256 ≡ n
word32_lem n h = omega arith

word16_lem : (n : ℕ) → n < 2 ^ 16 → n / 2 ^ 8 % 256 * 2 ^ 8 + n % 256 ≡ n
word16_lem n h = omega arith

-- A header that says `len`, before a text of at most 1014 bytes.
unpack-framed :
    (sec usec len : ℕ) (text : List ℕ)
    → sec < 2 ^ 32
    → usec < 2 ^ 32
    → len < 2 ^ 16
    → length text ≤ 1014
    → unpack (framed sec usec len text) ≡ (
        if ltb (length text) len
        then none
        else some (record { sec = sec; usec = usec; msglen = len; msg = take len text }))
unfolding unpack
unpack-framed sec usec len text a b c d = elim (Bool-cases (ltb (length text) len)) [
  | inl e ↦ simp (word32_lem sec a, word32_lem usec b, word16_lem len c, e) (ground (arith, e))
  | inr e ↦ simp (word32_lem sec a, word32_lem usec b, word16_lem len c, e) (ground (arith, e))
]

module _ (m : ChatMessage) (h : IsMessage m) where
  whole : take m.msglen m.msg ≡ m.msg
  whole = take_all m.msglen m.msg (omega (arith, h.counted))

  -- A packet is cut off at the MAXLINE bytes that the listener asks for. A message of at most 1014 bytes
  -- comes out as it went in; a longer one is ignored.
  pub unpack-pack : unpack (take max_line (pack m)) ≡ (if leb m.msglen 1014 then some m else none)
  unfolding pack
  unpack-pack = rw whole (
      unpack-framed m.sec m.usec m.msglen (take 1014 m.msg) h.sec_fits h.usec_fits
        (omega (arith, h.fits)) (length-take-le 1014 m.msg)
      ∙ cut_off (leb m.msglen 1014) refl)
    where
      cut_off :
          (b : Bool)
          → leb m.msglen 1014 ≡ b
          → (if ltb (length (take 1014 m.msg)) m.msglen
              then none
              else some (record {
                sec = m.sec;
                usec = m.usec;
                msglen = m.msglen;
                msg = take m.msglen (take 1014 m.msg);
              }))
            ≡ (if b then some m else none)
      cut_off true e =
          rw (take_all 1014 m.msg (ground (arith, h.counted)), h.counted, whole) (ground arith)
      cut_off false e = rw (length-take 1014 m.msg (ground (arith, h.counted))) (ground (arith, e))
