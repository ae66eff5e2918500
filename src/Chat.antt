-- ===== src/Chat.antt =====
-- pkg/wrtcchat/wrtcchat.go: who gets a message, and which handlers are called. The relay of
-- github.com/teivah/broadcast is a parameter: which of the listeners receive a message.
pub mod Members
pub mod Delivery
use weron.Prelude.{
  if◌then◌else◌, ℕ, zero, suc, String, ◌≡◌, Bool, true, false, not, ◌&&◌, ◌||◌, Option, none, some,
  List, [], ◌∷◌, ◌++◌, map,
}
use weron.Encryption.{Bytes}

-- What the handlers of the configuration are called with.
pub data Callback : Type 0 where
  signaler_connected : String → Callback
  peer_connected : String → String → Callback
  peer_disconnected : String → String → Callback
  on_message : String → String → Bytes → Callback

-- The handlers that are not nil; `OnMessage` is called in any case.
pub record Handlers : Type 0 where
  pub on_signaler_connect : Bool
  pub on_peer_connect : Bool
  pub on_peer_disconnected : Bool

-- A peer: whether its listener is open, whether the goroutine that writes to it still runs, and what
-- it has written.
pub record Member : Type 0 where
  pub peer_id : String
  pub channel_id : String
  pub listening : Bool
  pub writing : Bool
  pub written : List Bytes

pub record Chat : Type 0 where
  pub members : List Member
  pub called : List Callback

abbrev pub new_chat : Chat
new_chat = record { members = []; called = [] }

-- What happens: an ID of the signaler, a peer of `Accept`, a message that is sent, and for the peer
-- that was accepted as the n-th, counted from 0, a line that is read from it, the end of its lines, or
-- a write to it that fails.
pub data Event : Type 0 where
  connected : String → Event
  accepted : String → String → Event
  sent : Bytes → Event
  scanned : ℕ → Bytes → Event
  scan_ended : ℕ → Event
  write_failed : ℕ → Event

abbrev pub call_if : Bool → Callback → Chat → Chat
call_if true k c = record c { called = c.called ++ k ∷ [] }
call_if false k c = c

unfoldable pub member_at : ℕ → List Member → Option Member
member_at n [] = none
member_at zero (m ∷ ms) = some m
member_at (suc n) (m ∷ ms) = member_at n ms

unfoldable pub update_at : ℕ → (Member → Member) → List Member → List Member
update_at n f [] = []
update_at zero f (m ∷ ms) = f m ∷ ms
update_at (suc n) f (m ∷ ms) = m ∷ update_at n f ms

-- For each listener whether it is open, and whether anything still reads from it: no open listener is
-- without a reader.
unfoldable pub all_read : List (Bool × Bool) → Bool
all_read [] = true
all_read ((is_open, is_read) ∷ ls) = let rest = all_read ls in (not is_open || is_read) && rest

-- The relay: whether `NotifyCtx` hands a message to the n-th listener. It waits for the reader of each
-- open listener, so that all get the message if all read and the context is not canceled; if one does
-- not read, the call may be held up at it, and it is not said who gets the message.
pub record Relay : Type 0 where
  pub notify : List (Bool × Bool) → ℕ → Bool
  pub notify-all : (ls : List (Bool × Bool)) (n : ℕ) → all_read ls ≡ true → notify ls n ≡ true

abbrev pub listener_of : Member → Bool × Bool
listener_of m = (m.listening, m.writing)

-- The goroutine behind `l.Ch()`.
abbrev pub write_to : Bytes → Bool → Member → Member
write_to body received m =
    if m.listening && m.writing && received
    then record m { written = m.written ++ body ∷ [] }
    else m

unfoldable pub deliver : Bytes → (ℕ → Bool) → List Member → List Member
deliver body received [] = []
deliver body received (m ∷ ms) =
    write_to body (received 0) m ∷ deliver body (λ n. received (suc n)) ms

-- `SendMessage`.
unfoldable pub send_message : Relay → Bytes → Chat → Chat
send_message relay body c = record c {
  members = deliver body (relay.notify (map listener_of c.members)) c.members;
}

abbrev pub new_member : String → String → Member
new_member p ch = record {
  peer_id = p;
  channel_id = ch;
  listening = true;
  writing = true;
  written = [];
}

-- The case `peer := <-a.adapter.Accept()`, until the goroutines read and write.
abbrev pub accept : Handlers → String → String → Chat → Chat
accept h p ch c =
    call_if h.on_peer_connect (peer_connected p ch)
      (record c { members = c.members ++ new_member p ch ∷ [] })

abbrev pub read_line : ℕ → Bytes → Chat → Chat
read_line n body c = elim (member_at n c.members) [
  | none ↦ c
  | some m ↦ call_if m.listening (on_message m.peer_id m.channel_id body) c
]

-- The deferred function behind the loop over the lines.
abbrev pub end_lines : Handlers → ℕ → Chat → Chat
end_lines h n c = elim (member_at n c.members) [
  | none ↦ c
  | some m ↦
      if m.listening
      then (let d : Chat = record c {
        members = update_at n (λ m. record m { listening = false }) c.members;
      } in
          call_if h.on_peer_disconnected (peer_disconnected m.peer_id m.channel_id) d)
      else c
]

unfoldable pub step : Relay → Handlers → Event → Chat → Chat
unfolding send_message
step relay h (connected id) c = call_if h.on_signaler_connect (signaler_connected id) c
step relay h (accepted p ch) c = accept h p ch c
step relay h (sent body) c = send_message relay body c
step relay h (scanned n body) c = read_line n body c
step relay h (scan_ended n) c = end_lines h n c
step relay h (write_failed n) c = record c {
  members = update_at n (λ m. record m { writing = false }) c.members;
}

unfoldable pub run : Relay → Handlers → List Event → Chat → Chat
unfolding step
run relay h [] c = c
run relay h (e ∷ es) c = run relay h es (step relay h e c)
