-- ===== src/Conn/Signaling/Handshake.antt =====
-- Two adapters that find each other through the signaler.
use weron.Prelude.{
  Option-cases, blank, str_eq_refl, contains, lookup, insert, lookup-insert, ℕ, String, ◌≡◌, refl,
  ◌≢◌, inl, inr, true, false, Option, none, some, List, [], ◌∷◌, ◌++◌, arith, str_eq,
}
use weron.Encryption.{Bytes}
use weron.Conn.Signaling.Callbacks.{peer_disconnected, channel_opened}
use weron.Conn.Signaling.{
  introduction, offer, answer, candidate, Peer, Session, Webrtc, next, is_member, close_candidates,
  add_channel, send_offer, create_channels, receive_introduction, receive_offer, receive_candidate,
  receive_answer, receive,
}

-- A message for another adapter changes nothing: no peer, no line, no candidate.
pub receive_discarded :
    (id : String) (channels : List String) (w : Webrtc) (from to : String) (payload : Bytes)
    (iid : ℕ) (s : Session)
    → str_eq to id ≡ false
    → (receive id channels w (offer from to payload) iid s ≡ next s)
      × (receive id channels w (answer from to payload) iid s ≡ next s)
      × (receive id channels w (candidate from to payload) iid s ≡ next s)
unfolding receive receive_offer receive_answer receive_candidate
receive_discarded id channels w from to payload iid s n = (ground arith, ground arith, ground arith)

-- Everything that pion is asked for succeeds, with this offer and this answer.
abbrev pub succeeds : Bytes → Bytes → Webrtc
succeeds o a = record {
  new_connection = true;
  creates_channel = λ label. true;
  offer_sdp = some o;
  answer_sdp = some a;
  parses_sdp = λ payload. true;
  sets_remote = λ payload. true;
  detaches = true;
  closes = true;
}

-- The session of the adapter that makes an offer, once it is sent: the channel of an old connection
-- to that peer is closed.
abbrev pub closed_by : Option Peer → List ℕ
closed_by none = []
closed_by (some p) = p.iid ∷ []

abbrev pub offered : String → String → String → Bytes → ℕ → Session → Session
offered id from label sdp iid s = record s {
  peers = insert from (record { iid = iid; channels = label ∷ [] }) s.peers;
  lines = s.lines ++ offer id from sdp ∷ [];
  closed = closed_by (lookup from s.peers) ++ s.closed;
}

module _ (id : String) (channels : List String) (o ans : Bytes) where
  create_rest_next :
      (from : String) (iid : ℕ) (cs : List String) (s : Session)
      → create_channels id channels (succeeds o ans) from iid false cs s ≡ next s
  unfolding create_channels
  create_rest_next from iid [] s = refl
  create_rest_next from iid (c ∷ cs) s = ground (arith, create_rest_next from iid cs s)

  send_offer-succeeds :
      (from label : String) (iid : ℕ) (s : Session)
      → ((p : Peer) → lookup from s.peers ≡ some p → is_member p.iid s.closed ≡ false)
      → send_offer id channels (succeeds o ans) from iid label s
        ≡ next (offered id from label o iid s)
  unfolding send_offer close_candidates
  send_offer-succeeds from label iid s k = elim (Option-cases (lookup from s.peers)) [
    | inl n ↦ ground (arith, n)
    | inr (p, e) ↦ ground (arith, e, k p e)
  ]

module _ (id label : String) (cs : List String) (o ans : Bytes) where
  -- An introduction is answered by one offer, which registers the connection, if the first channel is
  -- not blank.
  pub receive_introduction_lem :
      (from : String) (iid : ℕ) (s : Session)
      → blank label ≡ false
      → ((p : Peer) → lookup from s.peers ≡ some p → is_member p.iid s.closed ≡ false)
      → receive id (label ∷ cs) (succeeds o ans) (introduction from) iid s
        ≡ next (offered id from label o iid s)
  unfolding receive receive_introduction create_channels
  receive_introduction_lem from iid s nb k = ground (
    arith,
    nb,
    send_offer-succeeds id (label ∷ cs) o ans from label iid s k,
    create_rest_next id (label ∷ cs) o ans from iid cs (offered id from label o iid s),
  )

abbrev pub answered : String → String → Bytes → ℕ → Session → Session
answered id from sdp iid s = record s {
  peers = insert from (record { iid = iid; channels = [] }) s.peers;
  lines = s.lines ++ answer id from sdp ∷ [];
  draining = iid ∷ s.draining;
}

abbrev pub reads_candidates : ℕ → Session → Session
reads_candidates iid s = record s { draining = iid ∷ s.draining }

-- Newcomer `a` meets the adapter `b` that was there before; both have the same channels.
module _ (a b label : String) (cs : List String) (o ans : Bytes) where
  abbrev channels : List String
  channels = label ∷ cs

  abbrev w : Webrtc
  w = succeeds o ans

  pub received_offer :
      (iid : ℕ) (s : Session)
      → receive a channels w (offer b a o) iid s ≡ next (answered a b ans iid s)
  unfolding receive receive_offer
  received_offer iid s = rw (str_eq_refl a) refl

  pub received_answer :
      (iid j : ℕ) (s : Session)
      → receive b channels w (answer a b ans) j (offered b a label o iid s)
        ≡ next (reads_candidates iid (offered b a label o iid s))
  unfolding receive receive_answer
  received_answer iid j s = ground (
    arith,
    str_eq_refl b,
    lookup-insert a a (record { iid = iid; channels = label ∷ [] }) s.peers,
    str_eq_refl a,
  )

  opened_lem :
      (id from : String) (p : Peer) (s : Session)
      → lookup from s.peers ≡ some p
      → channel_opened id channels w from label s
        ≡ some (record s {
          peers = insert from (add_channel label p) s.peers;
          accepted = s.accepted ++ (from, label) ∷ [];
        })
  unfolding channel_opened contains
  opened_lem id from p s e = ground (arith, e, str_eq_refl label)

  -- After the introduction of a newcomer `a` to an adapter `b` that has no closed connection to `a` in
  -- its table, where pion succeeds and both have the same channels, of which the first is not blank:
  -- `b` sends one offer, `a` answers it by one answer, both then read the candidates of the other, and
  -- once the data channel is open on both sides, each accepts the other on it.
  pub handshake :
      (sa sb : Session) (i j n : ℕ)
      → blank label ≡ false
      → ((p : Peer) → lookup a sb.peers ≡ some p → is_member p.iid sb.closed ≡ false)
      → let offering = offered b a label o i sb in
        let answering = answered a b ans j sa in
        let connected = reads_candidates i offering in
        (receive b channels w (introduction a) i sb ≡ next offering)
        × (offering.lines ≡ sb.lines ++ offer b a o ∷ [])
        × (receive a channels w (offer b a o) j sa ≡ next answering)
        × (answering.lines ≡ sa.lines ++ answer a b ans ∷ [])
        × (receive b channels w (answer a b ans) n offering ≡ next connected)
        × (is_member i connected.draining ≡ true)
        × (is_member j answering.draining ≡ true)
        × ((t : Session) × (channel_opened b channels w a label connected ≡ some t)
            × (t.accepted ≡ sb.accepted ++ (a, label) ∷ []))
        × ((t : Session) × (channel_opened a channels w b label answering ≡ some t)
            × (t.accepted ≡ sa.accepted ++ (b, label) ∷ []))
  unfolding is_member
  handshake sa sb i j n nb k =
      let mine : Peer = record { iid = i; channels = label ∷ [] } in
      let theirs : Peer = record { iid = j; channels = [] } in
      let offering = offered b a label o i sb in
      let answering = answered a b ans j sa in
      (
        receive_introduction_lem b label cs o ans a i sb nb k,
        refl,
        received_offer j sa,
        refl,
        received_answer i n sb,
        ground arith,
        ground arith,
        (
          _,
          opened_lem b a mine (reads_candidates i offering)
              (ground (arith, lookup-insert a a mine sb.peers, str_eq_refl a)),
          refl,
        ),
        (
          _,
          opened_lem a b theirs answering
              (ground (arith, lookup-insert b b theirs sa.peers, str_eq_refl b)),
          refl,
        ),
      )

-- A peer that introduces itself anew, as after a reconnection, replaces its old connection, whose
-- channel of candidates is closed; when pion reports later that the old connection is lost, the new
-- one stays.
pub rejoined_stays :
    (id from label : String) (cs : List String) (o ans : Bytes) (w : Webrtc) (iid : ℕ) (old : Peer)
    (s : Session)
    → blank label ≡ false
    → lookup from s.peers ≡ some old
    → is_member old.iid s.closed ≡ false
    → iid ≢ old.iid
    → (t : Session) × (receive id (label ∷ cs) (succeeds o ans) (introduction from) iid s ≡ next t)
      × (is_member old.iid t.closed ≡ true)
      × (peer_disconnected id (label ∷ cs) w from old.iid t ≡ some t)
      × (lookup from t.peers ≡ some (record { iid = iid; channels = label ∷ [] }))
unfolding is_member peer_disconnected
rejoined_stays id from label cs o ans w iid old s nb e k ne =
    let p : Peer = record { iid = iid; channels = label ∷ [] } in
    let found : lookup from (insert from p s.peers) ≡ some p =
      ground (arith, lookup-insert from from p s.peers, str_eq_refl from) in
    (
      offered id from label o iid s,
      receive_introduction_lem id label cs o ans from iid s nb (λ q f. ground (arith, e, f, k)),
      ground (arith, e),
      ground (arith, found, ne),
      found,
    )
