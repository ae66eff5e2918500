-- ===== src/Conn/Signaling/Events.antt =====
-- The messages of the signaler and the callbacks of pion as the events of one connection.
use weron.Prelude.{ℕ, String, Bool, true, false, Option, none, some, List, [], ◌∷◌}
use weron.Encryption.{Bytes}
use weron.Conn.Signaling.Callbacks.{
  peer_disconnected, channel_opened, offered_channel_closed, answered_channel_closed,
  candidate_found,
}
use weron.Conn.Signaling.{Signal, Session, Webrtc, Turn, next, panics, deadlocks, receive}

-- What happens to one connection to the signaler: a message of it, or a callback of pion. A data
-- channel that closes is one that was offered here, or one that was answered.
pub data Event : Type 0 where
  received : Webrtc → Signal → ℕ → Event
  state_disconnected : Webrtc → String → ℕ → Event
  channel_open : Webrtc → String → String → Event
  channel_close : Bool → Webrtc → String → String → Event
  candidate_made : String → Bytes → Event

-- Still running, ended by a panic of the loop, waiting for a lock, or the whole process ended.
pub data Life : Type 0 where
  alive ended stuck : Session → Life
  crashed : Life

abbrev pub of_turn : Turn → Life
of_turn (next s) = alive s
of_turn (panics s) = ended s
of_turn (deadlocks s) = stuck s

abbrev pub of_callback : Option Session → Life
of_callback none = crashed
of_callback (some s) = alive s

module _ (id : String) (channels : List String) where
  unfoldable pub happen : Session → Event → Life
  happen s (received w m iid) = of_turn (receive id channels w m iid s)
  happen s (state_disconnected w from iid) =
      of_callback (peer_disconnected id channels w from iid s)
  happen s (channel_open w from label) = of_callback (channel_opened id channels w from label s)
  happen s (channel_close true w from label) =
      of_callback (offered_channel_closed id channels w from label s)
  happen s (channel_close false w from label) =
      of_callback (answered_channel_closed id channels w from label s)
  happen s (candidate_made from payload) = alive (candidate_found id channels from payload s)

  unfoldable pub run : Session → List Event → Life
  run s [] = alive s
  run s (e ∷ es) =
      let rest = λ (t : Session). run t es in
      elim (happen s e) [
        | alive t ↦ rest t
        | ended t ↦ ended t
        | stuck t ↦ stuck t
        | crashed ↦ crashed
      ]
