-- ===== src/Tests/Connecting.antt =====
-- The adapters at concrete inputs: signaling, and the named peers.
use weron.Prelude.{
  if◌then◌else◌, is_space, blank, lookup, insert, ℕ, ◌≤◌, String, ◌≡◌, refl, true, false, Option,
  none, some, List, [], ◌∷◌, arith, eq_iff, str_eq,
}
use weron.Encryption.{Bytes}
use weron.Conn.Signaling.Callbacks.{peer_disconnected, channel_opened}
use weron.Conn.Signaling.{
  Signal, introduction, offer, answer, candidate, other, Session, new_session, Webrtc, next,
  is_member, close_candidates, send_offer, create_channels, receive_introduction, receive,
}
use weron.Conn.Signaling.Events.{Event, received, state_disconnected, happen, run}
use weron.Conn.Signaling.Uses.{issued, count}
use weron.Conn.Signaling.Closing.{run_open}
use weron.Conn.Signaling.Handshake.{succeeds, offered, answered, reads_candidates, handshake}
use weron.Conn.Signaling.Wire.{Format}
use weron.Conn.Named.{Link}

abbrev pub sdp : Bytes
sdp = 1 ∷ 2 ∷ []

abbrev pub pion : Webrtc
pion = succeeds sdp sdp

-- A peer is introduced twice, and its first connection is lost after that.
abbrev rejoining : List Event
rejoining =
    received pion (introduction "a") 1
    ∷ received pion (introduction "a") 2
    ∷ state_disconnected pion "a" 1
    ∷ []

abbrev rejoined : Session
rejoined = record {
  peers = ("a", record { iid = 2; channels = "chat" ∷ [] }) ∷ [];
  lines = offer "b" "a" sdp ∷ offer "b" "a" sdp ∷ [];
  accepted = [];
  closed = 1 ∷ [];
  draining = [];
  pending = [];
}

rejoining_fresh : (x : ℕ) → count x (issued rejoining) ≤ 1
unfolding count issued
rejoining_fresh x = ground arith

run_open_example : is_member 2 rejoined.closed ≡ false
unfolding run happen receive receive_introduction create_channels send_offer close_candidates
    peer_disconnected is_member insert lookup blank is_space
run_open_example =
    run_open "b" ("chat" ∷ []) rejoining rejoined "a" (record { iid = 2; channels = "chat" ∷ [] })
      rejoining_fresh refl refl

abbrev offering : Session
offering = offered "b" "a" "chat" sdp 1 new_session

abbrev answering : Session
answering = answered "a" "b" sdp 2 new_session

abbrev connected : Session
connected = reads_candidates 1 offering

handshake_example :
    (receive "b" ("chat" ∷ []) pion (introduction "a") 1 new_session ≡ next offering)
    × (offering.lines ≡ offer "b" "a" sdp ∷ [])
    × (receive "a" ("chat" ∷ []) pion (offer "b" "a" sdp) 2 new_session ≡ next answering)
    × (answering.lines ≡ answer "a" "b" sdp ∷ [])
    × (receive "b" ("chat" ∷ []) pion (answer "a" "b" sdp) 3 offering ≡ next connected)
    × (is_member 1 connected.draining ≡ true)
    × (is_member 2 answering.draining ≡ true)
    × ((t : Session) × (channel_opened "b" ("chat" ∷ []) pion "a" "chat" connected ≡ some t)
        × (t.accepted ≡ ("a", "chat") ∷ []))
    × ((t : Session) × (channel_opened "a" ("chat" ∷ []) pion "b" "chat" answering ≡ some t)
        × (t.accepted ≡ ("b", "chat") ∷ []))
unfolding blank is_space lookup
handshake_example =
    handshake "a" "b" "chat" [] sdp sdp new_session new_session 1 2 3 refl (λ p e. cc)

abbrev with_old : Session
with_old = record new_session { peers = ("a", record { iid = 1; channels = [] }) ∷ [] }

-- One message has a text.
abbrev marshal_one : Signal → Option Bytes
marshal_one (introduction from) = if str_eq from "a" then some (5 ∷ []) else none
marshal_one (offer from to payload) = none
marshal_one (answer from to payload) = none
marshal_one (candidate from to payload) = none
marshal_one (other type) = none

pub unmarshal-marshal_one :
    (m : Signal) (line : Bytes)
    → marshal_one m ≡ some line
    → ◌≡◌ {A = Option Signal} (some (introduction "a")) (some m)
unmarshal-marshal_one (introduction from) line e = ground (arith, e, eq_iff from "a")
unmarshal-marshal_one (offer from to payload) line e = cc
unmarshal-marshal_one (answer from to payload) line e = cc
unmarshal-marshal_one (candidate from to payload) line e = cc
unmarshal-marshal_one (other type) line e = cc

abbrev pub format : Format
format = record {
  marshal = marshal_one;
  unmarshal = λ line. some (introduction "a");
  unmarshal-marshal = unmarshal-marshal_one;
}

abbrev pub link : String → ℕ → Link
link channel n = record { peer_id = "uuid"; channel_id = channel; conn = n }

abbrev pub named_link : String → ℕ → Link
named_link channel n = record { peer_id = "alice"; channel_id = channel; conn = n }
