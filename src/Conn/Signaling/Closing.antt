-- ===== src/Conn/Signaling/Closing.antt =====
-- Every channel of candidates is closed at most once while a connection to the signaler lasts.
use weron.Prelude.{
  ◌==◌, Option-cases, lookup, ℕ, ◌+◌, ◌≤◌, ◌<◌, String, ◌≡◌, refl, inl, inr, true, false, Option,
  none, some, List, [], ◌∷◌, arith,
}
use weron.Encryption.{Bytes}
use weron.Conn.Signaling.Callbacks.{
  peer_disconnected, channel_opened, offered_channel_closed, answered_channel_closed,
  candidate_found,
}
use weron.Conn.Signaling.{
  Signal, introduction, offer, answer, candidate, other, Peer, Session, new_session, Webrtc, Turn,
  next, panics, deadlocks, is_member, receive_introduction, receive_candidate, receive,
}
use weron.Conn.Signaling.Events.{
  Event, received, state_disconnected, channel_open, channel_close, candidate_made, Life, alive,
  ended, stuck, crashed, of_turn, of_callback, happen, run,
}
use weron.Conn.Signaling.Uses.{
  issued, one_if, count, table_iids, count-zero, uses, create_channels-uses, receive_offer-uses,
  receive_answer-uses, peer_disconnected-uses, channel_opened-uses, channel_closed-uses,
}

of_turn-alive : (o : Turn) (t : Session) → of_turn o ≡ alive t → o ≡ next t
of_turn-alive (next s) t h = cc
of_turn-alive (panics s) t h = cc
of_turn-alive (deadlocks s) t h = cc

alive_then :
    (l : Life) (rest : Session → Life) (t : Session)
    → elim l [ alive u ↦ rest u | ended u ↦ ended u | stuck u ↦ stuck u | crashed ↦ crashed ]
      ≡ alive t
    → (u : Session) × (l ≡ alive u) × (rest u ≡ alive t)
alive_then (alive u) rest t h = (u, refl, h)
alive_then (ended u) rest t h = cc
alive_then (stuck u) rest t h = cc
alive_then crashed rest t h = cc

of_callback-alive : (o : Option Session) (t : Session) → of_callback o ≡ alive t → o ≡ some t
of_callback-alive none t h = cc
of_callback-alive (some s) t h = cc

module _ (id : String) (channels : List String) (x : ℕ) where
  receive_candidate-uses :
      (from to : String) (payload : Bytes) (s : Session)
      → uses x (receive_candidate id channels from to payload s) ≡ uses x s
  unfolding receive_candidate
  receive_candidate-uses from to payload s = ground arith

  receive_introduction-uses :
      (w : Webrtc) (from : String) (iid : ℕ) (s t : Session)
      → receive_introduction id channels w from iid s ≡ next t
      → uses x t ≤ uses x s + one_if (iid == x)
  unfolding receive_introduction
  receive_introduction-uses w from iid s t h =
      ground (arith, h, create_channels-uses id channels x w from iid true channels s t)

  receive-uses :
      (w : Webrtc) (m : Signal) (iid : ℕ) (s t : Session)
      → receive id channels w m iid s ≡ next t
      → uses x t ≤ uses x s + one_if (iid == x)
  unfolding receive
  receive-uses w (introduction from) iid s t h = receive_introduction-uses w from iid s t h
  receive-uses w (offer from to payload) iid s t h =
      receive_offer-uses id channels x w from to payload iid s t h
  receive-uses w (answer from to payload) iid s t h =
      omega (arith, receive_answer-uses id channels x w from to payload s t h)
  receive-uses w (candidate from to payload) iid s t h =
      ground (arith, h, receive_candidate-uses from to payload s)
  receive-uses w (other type) iid s t h = ground (arith, h)

  offered_channel_closed-uses :
      (w : Webrtc) (from label : String) (s t : Session)
      → offered_channel_closed id channels w from label s ≡ some t
      → uses x t ≡ uses x s
  unfolding offered_channel_closed
  offered_channel_closed-uses w from label s t h = elim (Option-cases (lookup from s.peers)) [
    | inl n ↦ ground (arith, h, n)
    | inr (p, e) ↦ channel_closed-uses id channels x w from label p s t e (ground (arith, h, e))
  ]

  answered_channel_closed-uses :
      (w : Webrtc) (from label : String) (s t : Session)
      → answered_channel_closed id channels w from label s ≡ some t
      → uses x t ≡ uses x s
  unfolding answered_channel_closed
  answered_channel_closed-uses w from label s t h = elim (Option-cases (lookup from s.peers)) [
    | inl n ↦ ground (arith, h, n)
    | inr (p, e) ↦ channel_closed-uses id channels x w from label p s t e (ground (arith, h, e))
  ]

  happen-uses :
      (s : Session) (e : Event) (t : Session)
      → happen id channels s e ≡ alive t
      → uses x t ≤ uses x s + count x (issued (e ∷ []))
  unfolding happen issued count candidate_found
  happen-uses s (received w m iid) t h =
      omega (arith, receive-uses w m iid s t (of_turn-alive (receive id channels w m iid s) t h))
  happen-uses s (state_disconnected w from iid) t h =
      let k = of_callback-alive (peer_disconnected id channels w from iid s) t h in
      omega (arith, peer_disconnected-uses id channels x w from iid s t k)
  happen-uses s (channel_open w from label) t h =
      let k = of_callback-alive (channel_opened id channels w from label s) t h in
      omega (arith, channel_opened-uses id channels x w from label s t k)
  happen-uses s (channel_close true w from label) t h =
      let k = of_callback-alive (offered_channel_closed id channels w from label s) t h in
      omega (arith, offered_channel_closed-uses w from label s t k)
  happen-uses s (channel_close false w from label) t h =
      let k = of_callback-alive (answered_channel_closed id channels w from label s) t h in
      omega (arith, answered_channel_closed-uses w from label s t k)
  happen-uses s (candidate_made from payload) t h = ground (arith, h)

  issued-cons :
      (e : Event) (es : List Event)
      → count x (issued (e ∷ es)) ≡ count x (issued (e ∷ [])) + count x (issued es)
  unfolding issued count
  issued-cons (received w m iid) es = omega arith
  issued-cons (state_disconnected w from iid) es = omega arith
  issued-cons (channel_open w from label) es = omega arith
  issued-cons (channel_close o w from label) es = omega arith
  issued-cons (candidate_made from payload) es = omega arith

  run-uses :
      (s : Session) (es : List Event) (t : Session)
      → run id channels s es ≡ alive t
      → uses x t ≤ uses x s + count x (issued es)
  unfolding run
  run-uses s [] t h = ground (arith, h)
  run-uses s (e ∷ es) t h =
      let (u, g, k) = alive_then (happen id channels s e) (λ u. run id channels u es) t h in
      omega (arith, happen-uses s e u g, run-uses u es t k, issued-cons e es)

none_used : (x : ℕ) → uses x new_session ≡ 0
unfolding count table_iids
none_used x = refl

count-lookup :
    (k : String) (p : Peer) (t : List (String × Peer))
    → lookup k t ≡ some p
    → 0 < count p.iid (table_iids t)
unfolding lookup count table_iids
count-lookup k p [] h = ground (arith, h)
count-lookup k p ((j, q) ∷ t) h = ground (arith, h, count-lookup k p t)

-- While a connection to the signaler lasts, whatever messages and callbacks of pion come in any
-- order, if every new connection has an ID of its own, the channel of candidates of a peer in the
-- table is open: so no replacement and no disconnection of a peer closes a channel twice.
pub run_open :
    (id : String) (channels : List String) (es : List Event) (s : Session) (k : String) (p : Peer)
    → ((x : ℕ) → count x (issued es) ≤ 1)
    → run id channels new_session es ≡ alive s
    → lookup k s.peers ≡ some p
    → is_member p.iid s.closed ≡ false
run_open id channels es s k p fresh h e =
    let r = run-uses id channels p.iid new_session es s h in
    count-zero p.iid s.closed
      (omega (arith, r, none_used p.iid, fresh p.iid, count-lookup k p s.peers e))
