-- ===== src/Conn/Signaling/Callbacks.antt =====
-- pkg/wrtcconn/adapter.go: the callbacks of pion, and the end of a connection to the signaler.
use weron.Prelude.{
  ◌==◌, if◌then◌else◌, contains, lookup, insert, delete, ℕ, String, Option, none, some, List, [],
  ◌∷◌, ◌++◌,
}
use weron.Encryption.{Bytes}
use weron.Conn.Signaling.{
  candidate, Peer, Session, Webrtc, send_line, close_candidates, add_channel, remove_channel,
}

module _ (id : String) (channels : List String) where
  -- The callbacks of pion run on goroutines of their own: a panic there ends the process.
  -- `OnConnectionStateChange` on either side, for the connection `iid`.
  unfoldable pub peer_disconnected : Webrtc → String → ℕ → Session → Option Session
  unfolding close_candidates
  peer_disconnected w from iid s = elim (lookup from s.peers) [
    | none ↦ some s
    | some c ↦
        if c.iid == iid
        then (if w.closes
            then elim (close_candidates iid s) [
              | none ↦ none
              | some t ↦ some (record t { peers = delete from s.peers })
            ]
            else none)
        else some s
  ]

  -- `OnOpen` of a data channel on either side: `peers[from]` is nil if there is no such peer.
  unfoldable pub channel_opened : Webrtc → String → String → Session → Option Session
  channel_opened w from label s =
      if w.detaches
      then (if contains label channels
          then elim (lookup from s.peers) [
            | none ↦ none
            | some p ↦ some (record s {
              peers = insert from (add_channel label p) s.peers;
              accepted = s.accepted ++ (from, label) ∷ [];
            })
          ]
          else some s)
      else none

  abbrev pub close_channel : Webrtc → String → String → Peer → Session → Option Session
  close_channel w from label p s =
      if contains label p.channels
      then (if w.closes
          then some (record s { peers = insert from (remove_channel label p) s.peers })
          else none)
      else some s

  -- `OnClose` of a data channel on the side that made the offer.
  unfoldable pub offered_channel_closed : Webrtc → String → String → Session → Option Session
  offered_channel_closed w from label s = elim (lookup from s.peers) [
    | none ↦ some s
    | some p ↦ close_channel w from label p s
  ]

  -- `OnClose` of a data channel on the side that answered, which does not look whether there is
  -- such a peer.
  unfoldable pub answered_channel_closed : Webrtc → String → String → Session → Option Session
  answered_channel_closed w from label s = elim (lookup from s.peers) [
    | none ↦ none
    | some p ↦ close_channel w from label p s
  ]

  -- `OnICECandidate`.
  unfoldable pub candidate_found : String → Bytes → Session → Session
  candidate_found from payload s = send_line (candidate id from payload) s

-- The deferred function at the end of a connection to the signaler, where every `Close` returns nil.
-- It leaves the table as it is.
unfoldable pub close_peers : List (String × Peer) → Session → Option Session
unfolding close_candidates
close_peers [] s = some s
close_peers ((from, p) ∷ peers) s = elim (close_candidates p.iid s) [
  | none ↦ none
  | some t ↦ close_peers peers t
]

unfoldable pub disconnect : Session → Option Session
disconnect s = close_peers s.peers s
