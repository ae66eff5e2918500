-- ===== src/Conn/Signaling/Failures.antt =====
-- Where an adapter cannot connect, and where a callback of pion ends the process.
use weron.Prelude.{
  blank, str_eq_refl, lookup, lookup-delete, ℕ, String, ◌≡◌, ap, true, none, some, List, [], ◌∷◌,
  arith,
}
use weron.Conn.Signaling.Callbacks.{
  peer_disconnected, answered_channel_closed, close_peers, disconnect,
}
use weron.Conn.Signaling.{
  introduction, Peer, Session, Webrtc, next, is_member, close_candidates, create_channels,
  receive_introduction, receive,
}
use weron.Conn.Signaling.Uses.{create_rest}

-- If the first channel is blank, an introduction is never answered by an offer, whatever pion
-- returns: if the loop goes on, it is with the same session.
pub receive_introduction_blank :
    (id label : String) (cs : List String) (w : Webrtc) (from : String) (iid : ℕ) (s t : Session)
    → blank label ≡ true
    → receive id (label ∷ cs) w (introduction from) iid s ≡ next t
    → t ≡ s
unfolding receive receive_introduction create_channels
receive_introduction_blank id label cs w from iid s t b h =
    ground (arith, b, h, create_rest id (label ∷ cs) 0 w from iid cs s t)

-- When the connection to a peer that was answered is lost, its data channels close as well: if the
-- loss is handled first, the callback of each data channel looks for the peer in vain, and ends the
-- process.
pub answered_channel_closed_late :
    (id : String) (channels : List String) (w u : Webrtc) (from label : String) (p : Peer)
    (s t : Session)
    → lookup from s.peers ≡ some p
    → peer_disconnected id channels w from p.iid s ≡ some t
    → answered_channel_closed id channels u from label t ≡ none
unfolding peer_disconnected close_candidates answered_channel_closed
answered_channel_closed_late id channels w u from label p s t e h =
    ground (arith, e, h, lookup-delete from from s.peers, str_eq_refl from)

close_peers-peers :
    (peers : List (String × Peer)) (s t : Session)
    → close_peers peers s ≡ some t
    → t.peers ≡ s.peers
unfolding close_peers close_candidates
close_peers-peers [] s t h = ground (arith, h)
close_peers-peers ((k, p) ∷ peers) s t h =
    ground (arith, h, close_peers-peers peers (record s { closed = p.iid ∷ s.closed }) t)

close_peers_keeps :
    (peers : List (String × Peer)) (s t : Session) (x : ℕ)
    → close_peers peers s ≡ some t
    → is_member x s.closed ≡ true
    → is_member x t.closed ≡ true
unfolding close_peers close_candidates is_member
close_peers_keeps [] s t x h m = ground (arith, h)
close_peers_keeps ((k, p) ∷ peers) s t x h m =
    ground (arith, h, close_peers_keeps peers (record s { closed = p.iid ∷ s.closed }) t x)

close_peers_all :
    (peers : List (String × Peer)) (s t : Session) (k : String) (p : Peer)
    → close_peers peers s ≡ some t
    → lookup k peers ≡ some p
    → is_member p.iid t.closed ≡ true
unfolding close_peers close_candidates is_member lookup
close_peers_all [] s t k p h e = ground (arith, e)
close_peers_all ((j, q) ∷ peers) s t k p h e = ground (
  arith,
  h,
  e,
  close_peers_all peers (record s { closed = q.iid ∷ s.closed }) t k p,
  close_peers_keeps peers (record s { closed = q.iid ∷ s.closed }) t q.iid,
)

-- The end of a connection to the signaler closes every peer but leaves the table as it is: if pion
-- reports after that that a peer of the table is lost, its channel of candidates is closed a second
-- time, and the process ends.
pub peer_disconnected_late :
    (id : String) (channels : List String) (w : Webrtc) (from : String) (p : Peer) (s t : Session)
    → disconnect s ≡ some t
    → lookup from s.peers ≡ some p
    → peer_disconnected id channels w from p.iid t ≡ none
unfolding disconnect peer_disconnected close_candidates
peer_disconnected_late id channels w from p s t d e =
    let same : t.peers ≡ s.peers = close_peers-peers s.peers s t d in
    ground (arith, e, ap (lookup from) same, close_peers_all s.peers s t from p d e)
