-- ===== src/Conn/Signaling.antt =====
-- pkg/wrtcconn/adapter.go and internal/api/websocket: how an adapter opens and closes connections to
-- its peers by messages through the signaler. pion/webrtc is given by what it returns; a number
-- stands for the ID that `uuid.NewString` gives a connection, and for its channel of candidates.
pub mod Callbacks
pub mod Events
pub mod Uses
pub mod Closing
pub mod Handshake
pub mod Newcomer
pub mod Wire
pub mod Failures
use weron.Prelude.{
  ◌==◌, if◌then◌else◌, blank, remove, lookup, insert, ℕ, String, Bool, true, false, ◌||◌, Option,
  none, some, List, [], ◌∷◌, ◌++◌, str_eq,
}
use weron.Encryption.{Bytes}

-- The messages of internal/api/websocket; `other` is any other type.
pub data Signal : Type 0 where
  introduction : String → Signal
  offer answer candidate : String → String → Bytes → Signal
  other : String → Signal

-- `peer`: its channel of candidates and its ID are the number, its data channels their labels.
pub record Peer : Type 0 where
  pub iid : ℕ
  pub channels : List String

-- What the goroutines of one connection to the signaler share. `lines` are the messages handed to
-- `sendLine`, `accepted` those sent on the channel of `Accept`; `closed` are the channels of
-- candidates that were closed, `draining` those that a goroutine reads from, `pending` the candidates
-- that are sent to one.
pub record Session : Type 0 where
  pub peers : List (String × Peer)
  pub lines : List Signal
  pub accepted : List (String × String)
  pub closed : List ℕ
  pub draining : List ℕ
  pub pending : List (ℕ × Bytes)

abbrev pub new_session : Session
new_session = record {
  peers = [];
  lines = [];
  accepted = [];
  closed = [];
  draining = [];
  pending = [];
}

-- What pion/webrtc and encoding/json return in one turn: `false` and `none` are errors.
pub record Webrtc : Type 0 where
  pub new_connection : Bool
  pub creates_channel : String → Bool
  pub offer_sdp : Option Bytes
  pub answer_sdp : Option Bytes
  pub parses_sdp : Bytes → Bool
  pub sets_remote : Bytes → Bool
  pub detaches : Bool
  pub closes : Bool

-- How a turn of the loop ends: the next one follows, a panic ends the connection to the signaler, or
-- a panic while `peerLock` is held, for which the deferred function waits in vain.
pub data Turn : Type 0 where
  next panics deadlocks : Session → Turn

abbrev pub send_line : Signal → Session → Session
send_line m s = record s { lines = s.lines ++ m ∷ [] }

unfoldable pub is_member : ℕ → List ℕ → Bool
is_member x [] = false
is_member x (y ∷ ys) = y == x || is_member x ys

-- `close(p.candidates)`: `none` is the panic of closing it twice.
unfoldable pub close_candidates : ℕ → Session → Option Session
close_candidates iid s =
    if is_member iid s.closed then none else some (record s { closed = iid ∷ s.closed })

abbrev pub add_channel : String → Peer → Peer
add_channel label p = record p { channels = label ∷ remove label p.channels }

abbrev pub remove_channel : String → Peer → Peer
remove_channel label p = record p { channels = remove label p.channels }

module _ (id : String) (channels : List String) where
  -- The part for the first data channel: the old connection to that peer is closed, and the new one
  -- takes its place.
  unfoldable pub send_offer : Webrtc → String → ℕ → String → Session → Turn
  unfolding close_candidates
  send_offer w from iid label s = elim w.offer_sdp [
    | none ↦ panics s
    | some sdp ↦
        let p : Peer = record { iid = iid; channels = label ∷ [] } in
        let registered = λ (t : Session).
          send_line (offer id from sdp) (record t { peers = insert from p t.peers }) in
        elim (lookup from s.peers) [
          | none ↦ next (registered s)
          | some old ↦
              if w.closes
              then elim (close_candidates old.iid s) [
                | none ↦ deadlocks s
                | some t ↦ next (registered t)
              ]
              else deadlocks s
        ]
  ]

  -- The loop over the data channels; the Boolean says that the index is 0.
  unfoldable pub create_channels : Webrtc → String → ℕ → Bool → List String → Session → Turn
  create_channels w from iid is_first [] s = next s
  create_channels w from iid is_first (c ∷ cs) s =
      let rest = λ (t : Session). create_channels w from iid false cs t in
      if blank c
      then rest s
      else if w.creates_channel c
      then (if is_first
          then elim (send_offer w from iid c s) [
            | next t ↦ rest t
            | panics t ↦ panics t
            | deadlocks t ↦ deadlocks t
          ]
          else rest s)
      else panics s

  unfoldable pub receive_introduction : Webrtc → String → ℕ → Session → Turn
  unfolding create_channels
  receive_introduction w from iid s =
      if w.new_connection then create_channels w from iid true channels s else panics s

  -- The part after the callbacks are set.
  abbrev pub answer_offer : Webrtc → String → Bytes → ℕ → Session → Turn
  answer_offer w from payload iid s =
      if w.parses_sdp payload
      then (if w.sets_remote payload
          then elim w.answer_sdp [
            | none ↦ panics s
            | some sdp ↦
                let p : Peer = record { iid = iid; channels = [] } in
                next (
                  send_line (answer id from sdp)
                    (record s { peers = insert from p s.peers; draining = iid ∷ s.draining }))
          ]
          else panics s)
      else next s

  unfoldable pub receive_offer : Webrtc → String → String → Bytes → ℕ → Session → Turn
  receive_offer w from to payload iid s =
      if str_eq to id
      then if w.new_connection then answer_offer w from payload iid s else panics s
      else next s

  unfoldable pub receive_candidate : String → String → Bytes → Session → Session
  receive_candidate from to payload s =
      if str_eq to id
      then elim (lookup from s.peers) [
        | none ↦ s
        | some p ↦ record s { pending = (p.iid, payload) ∷ s.pending }
      ]
      else s

  unfoldable pub receive_answer : Webrtc → String → String → Bytes → Session → Turn
  receive_answer w from to payload s =
      if str_eq to id
      then elim (lookup from s.peers) [
        | none ↦ next s
        | some p ↦
            if w.parses_sdp payload
            then (if w.sets_remote payload
                then next (record s { draining = p.iid ∷ s.draining })
                else panics s)
            else next s
      ]
      else next s

  -- The switch over the type of a message; `iid` is what `uuid.NewString` returns in it.
  unfoldable pub receive : Webrtc → Signal → ℕ → Session → Turn
  unfolding receive_introduction receive_offer receive_candidate receive_answer
  receive w (introduction from) iid s = receive_introduction w from iid s
  receive w (offer from to payload) iid s = receive_offer w from to payload iid s
  receive w (candidate from to payload) iid s = next (receive_candidate from to payload s)
  receive w (answer from to payload) iid s = receive_answer w from to payload s
  receive w (other type) iid s = next s
