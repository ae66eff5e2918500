-- ===== src/Tests/Meeting.antt =====
-- A newcomer in a community, and a chat, at concrete inputs.
use weron.Prelude.{is_space, blank, lookup, String, ◌≡◌, refl, true, false, some, List, [], ◌∷◌}
use weron.Conn.Signaling.{introduction, offer, answer, new_session}
use weron.Conn.Signaling.Events.{received, alive, run}
use weron.Conn.Signaling.Handshake.{offered, reads_candidates}
use weron.Conn.Signaling.Newcomer.{meets_newcomer}
use weron.Tests.Connecting.{sdp, pion}
use weron.Chat
use weron.Chat.{Member, Chat, member_at}
use weron.Chat.Delivery.{sent_while, writes_succeed, accepted_delivery}

abbrev chat : List String
chat = "chat" ∷ []

meets_newcomer_example :
    run "b" chat new_session (
      received pion (offer "c" "d" sdp) 7
      ∷ received pion (introduction "a") 1
      ∷ received pion (answer "a" "c" sdp) 8
      ∷ received pion (answer "a" "b" sdp) 2
      ∷ [])
    ≡ alive (reads_candidates 1 (offered "b" "a" "chat" sdp 1 new_session))
unfolding blank is_space lookup
meets_newcomer_example =
    meets_newcomer "b" "chat" [] sdp sdp "a" 1 2 new_session ((offer "c" "d" sdp, 7) ∷ [])
      ((answer "a" "c" sdp, 8) ∷ []) [] refl (λ p e. cc) (refl, tt) (refl, tt) tt

abbrev handlers : Chat.Handlers
handlers = record {
  on_signaler_connect = true;
  on_peer_connect = true;
  on_peer_disconnected = false;
}

-- A relay that hands no message to anyone while a listener is not read from.
abbrev waiting_relay : Chat.Relay
waiting_relay = record { notify = λ ls n. Chat.all_read ls; notify-all = λ ls n r. r }

-- The first message comes too early for the peer, and the third too late.
abbrev chatting : List Chat.Event
chatting =
    Chat.sent (2 ∷ [])
    ∷ Chat.scanned 1 (9 ∷ [])
    ∷ Chat.scan_ended 0
    ∷ Chat.sent (3 ∷ [])
    ∷ Chat.scan_ended 1
    ∷ Chat.sent (4 ∷ [])
    ∷ []

abbrev started : Chat.Chat
started =
    Chat.run waiting_relay handlers (Chat.accepted "alice" "chat" ∷ Chat.sent (1 ∷ []) ∷ [])
      Chat.new_chat

accepted_delivery_example :
    (x : Member) × (member_at 1
        (Chat.run waiting_relay handlers (Chat.accepted "bob" "chat" ∷ chatting) started).members
      ≡ some x)
    × (x.peer_id ≡ "bob")
    × (x.channel_id ≡ "chat")
    × (x.written ≡ (2 ∷ []) ∷ (3 ∷ []) ∷ [])
unfolding Chat.run Chat.step sent_while writes_succeed Chat.all_read Chat.deliver
accepted_delivery_example =
    accepted_delivery waiting_relay handlers "bob" "chat" chatting started refl refl
