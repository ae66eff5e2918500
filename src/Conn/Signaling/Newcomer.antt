-- ===== src/Conn/Signaling/Newcomer.antt =====
-- A newcomer and all the adapters of a community: the signaler passes every message on to everyone.
use mathlib.Core.List.{append-nil, append_assoc}
use weron.Prelude.{
  All, blank, lookup, lookup-insert, ℕ, String, ◌≡◌, refl, ◌∙◌, false, none, some, List, [], ◌∷◌,
  ◌++◌, map, arith, eq_iff, str_eq,
}
use weron.Encryption.{Bytes}
use weron.Conn.Signaling.{
  Signal, introduction, offer, answer, candidate, other, Peer, Session, Webrtc, next, is_member,
  receive,
}
use weron.Conn.Signaling.Events.{Event, received, alive, happen, run}
use weron.Conn.Signaling.Handshake.{
  receive_discarded, succeeds, offered, receive_introduction_lem, answered, reads_candidates,
  received_offer, received_answer,
}

-- What does not concern an adapter: a message between two others.
abbrev pub NotFor : String → Signal → Type 0
NotFor id (introduction from) = ⊥
NotFor id (offer from to payload) = str_eq to id ≡ false
NotFor id (answer from to payload) = str_eq to id ≡ false
NotFor id (candidate from to payload) = str_eq to id ≡ false
NotFor id (other type) = Unit

abbrev pub all_received : Webrtc → List (Signal × ℕ) → List Event
all_received w = map (λ m. received w m.0 m.1)

module _ (id : String) (channels : List String) (w : Webrtc) where
  receive_overheard :
      (m : Signal) (iid : ℕ) (s : Session) → NotFor id m → receive id channels w m iid s ≡ next s
  unfolding receive
  receive_overheard (introduction from) iid s h = absurd h
  receive_overheard (offer from to payload) iid s h =
      (receive_discarded id channels w from to payload iid s h).0
  receive_overheard (answer from to payload) iid s h =
      (receive_discarded id channels w from to payload iid s h).1
  receive_overheard (candidate from to payload) iid s h =
      (receive_discarded id channels w from to payload iid s h).2
  receive_overheard (other type) iid s h = refl

  run-next :
      (m : Signal) (iid : ℕ) (es : List Event) (s t : Session)
      → receive id channels w m iid s ≡ next t
      → run id channels s (received w m iid ∷ es) ≡ run id channels t es
  unfolding run happen
  run-next m iid es s t h = ground (arith, h)

  run-overheard :
      (ms : List (Signal × ℕ)) (es : List Event) (s : Session)
      → All (λ m. NotFor id m.0) ms
      → run id channels s (all_received w ms ++ es) ≡ run id channels s es
  run-overheard [] es s a = refl
  run-overheard (m ∷ ms) es s a =
      run-next m.0 m.1 (all_received w ms ++ es) s s (receive_overheard m.0 m.1 s a.0)
      ∙ run-overheard ms es s a.1

-- An adapter that hears the introduction of a newcomer and later the newcomer's answer to its offer,
-- among any messages between others: it sends one offer, keeps the connection, and reads the
-- candidates of the newcomer in the end, if the first channel is not blank, pion succeeds and no old
-- connection to the newcomer with a closed channel stands in its table.
pub meets_newcomer :
    (id label : String) (cs : List String) (o ans : Bytes) (a : String) (i j : ℕ) (s : Session)
    (before between after : List (Signal × ℕ))
    → blank label ≡ false
    → ((p : Peer) → lookup a s.peers ≡ some p → is_member p.iid s.closed ≡ false)
    → All (λ m. NotFor id m.0) before
    → All (λ m. NotFor id m.0) between
    → All (λ m. NotFor id m.0) after
    → let w = succeeds o ans in
      let es =
        all_received w before
        ++ received w (introduction a) i
          ∷ (all_received w between
              ++ received w (answer a id ans) j ∷ (all_received w after ++ [])) in
      run id (label ∷ cs) s es ≡ alive (reads_candidates i (offered id a label o i s))
unfolding run
meets_newcomer id label cs o ans a i j s before between after nb k b0 b1 b2 =
    let w = succeeds o ans in
    let t = offered id a label o i s in
    let tail2 = all_received w after ++ [] in
    let tail1 = all_received w between ++ received w (answer a id ans) j ∷ tail2 in
    run-overheard id (label ∷ cs) w before (received w (introduction a) i ∷ tail1) s b0
    ∙ (run-next id (label ∷ cs) w (introduction a) i tail1 s t
          (receive_introduction_lem id label cs o ans a i s nb k)
        ∙ (run-overheard id (label ∷ cs) w between (received w (answer a id ans) j ∷ tail2) t b1
            ∙ (run-next id (label ∷ cs) w (answer a id ans) j tail2 t (reads_candidates i t)
                  (received_answer a id label cs o ans i j s)
                ∙ run-overheard id (label ∷ cs) w after [] (reads_candidates i t) b2)))

-- Offers to one adapter, with the IDs that it draws for them.
abbrev pub all_offered : String → Bytes → List (String × ℕ) → List (Signal × ℕ)
all_offered a o = map (λ b. (offer b.0 a o, b.1))

abbrev pub answered_all : String → Bytes → List (String × ℕ) → Session → Session
answered_all a ans [] s = s
answered_all a ans (b ∷ bs) s = answered_all a ans bs (answered a b.0 ans b.1 s)

-- No adapter stands in the list twice.
abbrev pub AreDistinct : List (String × ℕ) → Type 0
AreDistinct [] = Unit
AreDistinct (b ∷ bs) = (lookup b.0 bs ≡ none) × AreDistinct bs

module _ (a label : String) (cs : List String) (o ans : Bytes) where
  run-all_offered :
      (bs : List (String × ℕ)) (s : Session)
      → run a (label ∷ cs) s (all_received (succeeds o ans) (all_offered a o bs))
        ≡ alive (answered_all a ans bs s)
  unfolding run
  run-all_offered [] s = refl
  run-all_offered (b ∷ bs) s =
      run-next a (label ∷ cs) (succeeds o ans) (offer b.0 a o) b.1
        (all_received (succeeds o ans) (all_offered a o bs)) s (answered a b.0 ans b.1 s)
        (received_offer a b.0 label cs o ans b.1 s)
      ∙ run-all_offered bs (answered a b.0 ans b.1 s)

answered_all-lines :
    (a : String) (ans : Bytes) (bs : List (String × ℕ)) (s : Session)
    → (answered_all a ans bs s).lines ≡ s.lines ++ map (λ b. answer a b.0 ans) bs
answered_all-lines a ans [] s = rw (append-nil s.lines) refl
answered_all-lines a ans (b ∷ bs) s =
    rw (answered_all-lines a ans bs (answered a b.0 ans b.1 s))
      (append_assoc s.lines (answer a b.0 ans ∷ []) (map (λ c. answer a c.0 ans) bs))

answered_all-peers :
    (a : String) (ans : Bytes) (bs : List (String × ℕ)) (s : Session) (k : String)
    → AreDistinct bs
    → lookup k (answered_all a ans bs s).peers ≡ elim (lookup k bs) [
      | none ↦ lookup k s.peers
      | some i ↦ some (record { iid = i; channels = [] })
    ]
unfolding lookup
answered_all-peers a ans [] s k d = refl
answered_all-peers a ans ((b, i) ∷ bs) s k d =
    let p : Peer = record { iid = i; channels = [] } in
    rw (answered_all-peers a ans bs (answered a b ans i s) k d.1)
      (ground (arith, d.0, lookup-insert k b p s.peers, eq_iff b k))

-- A newcomer that gets one offer of each of any number of adapters, in any order, answers each of
-- them once, in that order, and has a connection to each of them in its table, if pion succeeds.
pub answers_all :
    (a label : String) (cs : List String) (o ans : Bytes) (bs : List (String × ℕ)) (s : Session)
    → AreDistinct bs
    → (t : Session) × (run a (label ∷ cs) s (all_received (succeeds o ans) (all_offered a o bs))
        ≡ alive t)
      × (t.lines ≡ s.lines ++ map (λ b. answer a b.0 ans) bs)
      × ((b : String) (i : ℕ)
          → lookup b bs ≡ some i
          → lookup b t.peers ≡ some (record { iid = i; channels = [] }))
answers_all a label cs o ans bs s d = (
  answered_all a ans bs s,
  run-all_offered a label cs o ans bs s,
  answered_all-lines a ans bs s,
  λ b i e. rw (answered_all-peers a ans bs s b d, e) refl,
)
