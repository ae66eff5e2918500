-- ===== src/Relay.antt =====
-- The way of a message from one adapter to the others: pkg/wrtcconn/adapter.go encrypts it and writes
-- it to the signaler, pkg/wrtcsgl reads and publishes it, internal/brokers/redis distributes it, and
-- pkg/wrtcsgl writes it to the other clients of the community, which decrypt and handle it.
pub mod Delivered
use weron.Prelude.{
  if◌then◌else◌, ℕ, suc, String, true, not, ◌&&◌, some, List, [], ◌∷◌, ◌++◌, map, str_eq,
}
use weron.Encryption.{Bytes, Crypto, value, failure, panic}
use weron.Broker.{Input}
use weron.Signaler.Session.{Frame, ping, frame_read, read_loop}
use weron.Conn.Signaling.{Signal, Session, Webrtc, Turn, next, panics, deadlocks, receive}
use weron.Conn.Signaling.Wire.{Format, write_line, receive_input}

-- A message that one adapter sends: the community and the address of its connection, and the random
-- bytes that it is encrypted with.
pub record Post : Type 0 where
  pub community : String
  pub raddr : String
  pub signal : Signal
  pub nonce : Bytes

-- The loop goes on after a turn, unless that ends it.
abbrev pub and_then : Turn → (Session → Turn) → Turn
and_then (next s) rest = rest s
and_then (panics s) rest = panics s
and_then (deadlocks s) rest = deadlocks s

module _ (c : Crypto) (json : Format) (key : Bytes) where
  -- What the signaler publishes for it; 1 is the type of text messages.
  unfoldable pub published : Post → List Input
  published p = elim (write_line c json key (some p.nonce) (json.marshal p.signal)) [
    | value sealed ↦ read_loop p.raddr (frame_read 1 sealed true ∷ [])
    | failure ↦ []
    | panic ↦ []
  ]

  -- All that is published, with the community.
  unfoldable pub publications : List Post → List (String × Input)
  unfolding published
  publications [] = []
  publications (p ∷ posts) = map (λ i. (p.community, i)) (published p) ++ publications posts

  module _ (id : String) (channels : List String) (w : Webrtc) (draw : ℕ → ℕ) where
    -- The loop of an adapter over the frames of the signaler; the n-th message draws the ID `draw n`.
    unfoldable pub handle_frames : ℕ → List Frame → Session → Turn
    handle_frames n [] s = next s
    handle_frames n (ping ∷ frames) s = handle_frames n frames s
    handle_frames n (Frame.message type p ∷ frames) s =
        let rest = λ (t : Session). handle_frames (suc n) frames t in
        and_then (receive_input c json key id channels w p (draw n) s) rest

-- The same loop over messages that are given as they are.
module _ (id : String) (channels : List String) (w : Webrtc) (draw : ℕ → ℕ) where
  unfoldable pub handle_signals : ℕ → List Signal → Session → Turn
  handle_signals n [] s = next s
  handle_signals n (m ∷ signals) s =
      let rest = λ (t : Session). handle_signals (suc n) signals t in
      and_then (receive id channels w m (draw n) s) rest

-- What one connection is to hear of all that is sent: the messages of the others in its community.
unfoldable pub signals_for : String → String → List Post → List Signal
signals_for community raddr [] = []
signals_for community raddr (p ∷ posts) =
    let rest = signals_for community raddr posts in
    if str_eq p.community community && not (str_eq p.raddr raddr) then p.signal ∷ rest else rest
