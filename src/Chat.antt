-- ===== src/Chat.antt =====
-- a2-phase2/s-chat.c: the four threads, one function for each round of a thread's loop. The queues are
-- lists of NodePool; an item is the number of a malloc'd ChatMessage, and malloc does not fail. What
-- `read`, `recvfrom` and `gettimeofday` give is an argument. A round runs its critical section whole, as
-- the semaphores have it, and returns what it sends or shows.
pub mod Packet
pub mod Relay
pub mod Crowded
mod Tests
use monitors_and_ipc.Prelude.{
  ℕ, zero, suc, ◌+◌, ◌*◌, ◌/◌, ◌%◌, ◌^◌, Bool, true, false, ◌&&◌, ◌||◌, Option, none, some, List,
  [], ◌∷◌, ◌++◌, ◌==◌, ltb, if◌then◌else◌, update, length, get_or, take, drop, ℤ, pos, negsuc,
}
use monitors_and_ipc.NodePool.{Cmd, fault, pure, ◌>>=◌, ◌>>◌, deref}
use monitors_and_ipc.NodePool.Add.{list_append}
use monitors_and_ipc.NodePool.Move.{list_count, list_first}
use monitors_and_ipc.NodePool.Remove.{list_remove}

abbrev pub max_line : ℕ
max_line = 1024

-- `msg` holds the bytes that were copied into the array.
pub record ChatMessage : Type 0 where
  pub sec : ℕ
  pub usec : ℕ
  pub msglen : ℕ
  pub msg : List ℕ

-- The malloc'd messages: those below `fresh` are in use. `behind` is what the memory holds behind the bytes
-- that are copied into a message, as malloc has left it.
pub record Store : Type 0 where
  pub messages : ℕ → ChatMessage
  pub behind : ℕ → List ℕ
  pub fresh : ℕ
  pub shutdown_flag : Bool

-- The bytes of `htonl` and `htons`, in memory order.
abbrev pub be32 : ℕ → List ℕ
be32 n = (n / 2 ^ 24 % 256) ∷ (n / 2 ^ 16 % 256) ∷ (n / 2 ^ 8 % 256) ∷ (n % 256) ∷ []

abbrev pub be16 : ℕ → List ℕ
be16 n = (n / 2 ^ 8 % 256) ∷ (n % 256) ∷ []

-- The `memcpy` of 4 or 2 bytes at an offset, and `ntohl` or `ntohs`.
abbrev pub word32 : List ℕ → ℕ → ℕ
word32 buffer i =
    get_or buffer i 0 * 2 ^ 24
    + get_or buffer (i + 1) 0 * 2 ^ 16
    + get_or buffer (i + 2) 0 * 2 ^ 8
    + get_or buffer (i + 3) 0

abbrev pub word16 : List ℕ → ℕ → ℕ
word16 buffer i = get_or buffer i 0 * 2 ^ 8 + get_or buffer (i + 1) 0

-- The buffer that the speaker fills.
unfoldable pub pack : ChatMessage → List ℕ
pack m = be32 m.sec ++ be32 m.usec ++ be16 m.msglen ++ take m.msglen m.msg

abbrev pub read_message : ℕ → List ℕ → ChatMessage
read_message datalen buffer = record {
  sec = word32 buffer 0;
  usec = word32 buffer 4;
  msglen = datalen;
  msg = take datalen (drop 10 buffer);
}

abbrev pub at_most_line : ℕ → ℕ
at_most_line n = if ltb max_line n then max_line else n

-- The message of a received packet, `none` if the listener ignores it.
unfoldable pub unpack : List ℕ → Option ChatMessage
unpack buffer =
    if ltb (length buffer) 10 || ltb (length buffer) (10 + word16 buffer 8)
    then none
    else some (read_message (at_most_line (word16 buffer 8)) buffer)

-- malloc of a message that holds `m`.
abbrev pub with_message : ChatMessage → Store → Store
with_message m s = record s { messages = update s.messages s.fresh m; fresh = suc s.fresh }

-- The new message goes into the queue; if that fails, it is lost.
abbrev pub save : Option ℕ → ChatMessage → Store → Cmd Store
save queue m s = do list_append queue (some s.fresh); pure (with_message m s)

-- What `read` gives: nothing yet, an error, the end of the input, or a line.
pub data Input : Type 0 where
  not_yet failed closed : Input
  line : List ℕ → Input

-- `strncmp(buffer, "exit", 4) == 0`, in a buffer that a NUL ends.
abbrev pub is_exit : List ℕ → Bool
is_exit buffer =
    get_or buffer 0 0 == b'e'
    && get_or buffer 1 0 == b'x'
    && get_or buffer 2 0 == b'i'
    && get_or buffer 3 0 == b't'

-- `buffer[i] = x`, which faults outside the array. The list is what is known of the array from its start.
unfoldable pub set_byte : (i x : ℕ) → List ℕ → Cmd (List ℕ)
set_byte i x buffer =
    if ltb i max_line then pure (take i buffer ++ x ∷ drop (suc i) buffer) else (λ p. fault)

abbrev pub exit_or_go_on : List ℕ → Store → Cmd (Store × Bool)
exit_or_go_on buffer s =
    if is_exit buffer then pure (record s { shutdown_flag = true }, false) else pure (s, true)

-- After the line is saved.
unfoldable pub after_line : List ℕ → Store → Cmd (Store × Bool)
after_line buffer s = do ended ← set_byte (length buffer) 0 buffer; exit_or_go_on ended s

-- A round of keyboard_input at the time `sec`, `usec`; the Boolean says whether the loop goes on.
unfoldable pub keyboard : Option ℕ → (sec usec : ℕ) → Input → Store → Cmd (Store × Bool)
keyboard queue sec usec not_yet s = pure (s, true)
keyboard queue sec usec failed s = pure (s, false)
keyboard queue sec usec closed s = pure (s, false)
keyboard queue sec usec (line buffer) s = do
  s' ← save queue (record { sec = sec; usec = usec; msglen = length buffer; msg = buffer }) s
  after_line buffer s'

abbrev pub keep : Option ℕ → Option ChatMessage → Store → Cmd Store
keep queue none s = pure s
keep queue (some m) s = save queue m s

-- A round of listener_thread, given the bytes that `recvfrom` stored, `none` if it returned -1.
unfoldable pub listener : Option ℕ → Option (List ℕ) → Store → Cmd Store
listener queue none s = pure s
listener queue (some buffer) s = keep queue (unpack buffer) s

abbrev pub is_none_left : ℤ → Bool
is_none_left (pos zero) = true
is_none_left (pos (suc n)) = false
is_none_left (negsuc n) = false

-- The first message of a queue, taken out; `none` if ListCount is 0.
unfoldable pub take_message : Option ℕ → Cmd (Option ℕ)
take_message queue = do
  count ← list_count queue
  if is_none_left count
      then pure none
      else (do list_first queue; item ← list_remove queue; id ← deref item; pure (some id))

-- The bytes that `%s` prints: those up to the first NUL.
unfoldable pub until_nul : List ℕ → List ℕ
until_nul [] = []
until_nul (x ∷ xs) = let rest = until_nul xs in if x == 0 then [] else x ∷ rest

-- What display_thread prints.
pub record Shown : Type 0 where
  pub sec : ℕ
  pub usec : ℕ
  pub text : List ℕ

-- The text goes on into the memory behind the message if no NUL is in it.
abbrev pub printed : List ℕ → ChatMessage → Shown
printed behind m = record { sec = m.sec; usec = m.usec; text = until_nul (m.msg ++ behind) }

abbrev pub shown : Store → Option ℕ → Option Shown
shown s none = none
shown s (some id) = some (printed (s.behind id) (s.messages id))

abbrev pub sent : (ℕ → ChatMessage) → Option ℕ → Option (List ℕ)
sent messages none = none
sent messages (some id) = some (pack (messages id))

-- A round of display_thread: what it prints of the message, before it frees it.
unfoldable pub display : Option ℕ → Store → Cmd (Option Shown)
display queue s = do id ← take_message queue; pure (shown s id)

-- A round of speaker_thread: the packet that it hands to `sendto`.
unfoldable pub speaker : Option ℕ → Store → Cmd (Option (List ℕ))
speaker queue s = do id ← take_message queue; pure (sent s.messages id)
