-- ===== src/Conn/Signaling/Uses.antt =====
-- How often a channel of candidates is closed or open, turn by turn.
use weron.Prelude.{
  ◌==◌, Bool-cases, Option-cases, blank, lookup, insert, delete, ℕ, ◌+◌, ◌≤◌, String, ◌≡◌, refl, ap,
  inl, inr, Bool, true, false, Option, none, some, List, [], ◌∷◌, arith,
}
use weron.Encryption.{Bytes}
use weron.Conn.Signaling.Callbacks.{peer_disconnected, channel_opened, close_channel}
use weron.Conn.Signaling.{
  Peer, Session, Webrtc, Turn, next, panics, deadlocks, is_member, close_candidates, add_channel,
  remove_channel, send_offer, create_channels, receive_offer, receive_answer,
}
use weron.Conn.Signaling.Events.{Event, received}

-- The IDs that `uuid.NewString` returns in a sequence of events.
unfoldable pub issued : List Event → List ℕ
issued [] = []
issued (received w m iid ∷ es) = iid ∷ issued es
issued (_ ∷ es) = issued es

abbrev pub one_if : Bool → ℕ
one_if true = 1
one_if false = 0

-- How often a number stands in a list.
unfoldable pub count : ℕ → List ℕ → ℕ
count x [] = 0
count x (y ∷ ys) = one_if (y == x) + count x ys

unfoldable pub table_iids : List (String × Peer) → List ℕ
table_iids [] = []
table_iids ((k, p) ∷ peers) = p.iid ∷ table_iids peers

-- What the entry under `k` adds to the count of `x`.
abbrev entry_count : ℕ → Option Peer → ℕ
entry_count x none = 0
entry_count x (some p) = one_if (p.iid == x)

pub count-insert :
    (x : ℕ) (k : String) (p : Peer) (t : List (String × Peer))
    → count x (table_iids (insert k p t)) + entry_count x (lookup k t)
      ≡ count x (table_iids t) + one_if (p.iid == x)
unfolding count table_iids insert lookup
count-insert x k p [] = omega arith
count-insert x k p ((j, q) ∷ t) = ground (arith, count-insert x k p t)

pub count-delete :
    (x : ℕ) (k : String) (t : List (String × Peer))
    → count x (table_iids (delete k t)) + entry_count x (lookup k t) ≤ count x (table_iids t)
unfolding count table_iids delete lookup
count-delete x k [] = omega arith
count-delete x k ((j, q) ∷ t) = ground (arith, count-delete x k t)

pub count-zero : (x : ℕ) (xs : List ℕ) → count x xs ≡ 0 → is_member x xs ≡ false
unfolding count is_member
count-zero x [] h = refl
count-zero x (y ∷ ys) h = ground (arith, count-zero x ys)

-- How often a channel of candidates is closed or open.
abbrev pub uses : ℕ → Session → ℕ
uses x s = count x s.closed + count x (table_iids s.peers)

pub next_then :
    (o : Turn) (rest : Session → Turn) (t : Session)
    → elim o [ next u ↦ rest u | panics u ↦ panics u | deadlocks u ↦ deadlocks u ] ≡ next t
    → (u : Session) × (o ≡ next u) × (rest u ≡ next t)
next_then (next u) rest t h = (u, refl, h)
next_then (panics u) rest t h = cc
next_then (deadlocks u) rest t h = cc

module _ (id : String) (channels : List String) (x : ℕ) (w : Webrtc) (from : String) where
  pub send_offer-uses :
      (iid : ℕ) (label : String) (s t : Session)
      → send_offer id channels w from iid label s ≡ next t
      → uses x t ≤ uses x s + one_if (iid == x)
  unfolding send_offer close_candidates count
  send_offer-uses iid label s t h =
      ground (arith, count-insert x from (record { iid = iid; channels = label ∷ [] }) s.peers)

  pub create_rest :
      (iid : ℕ) (cs : List String) (s t : Session)
      → create_channels id channels w from iid false cs s ≡ next t
      → t ≡ s
  unfolding create_channels
  create_rest iid [] s t h = ground (arith, h)
  create_rest iid (c ∷ cs) s t h = ground (arith, h, create_rest iid cs s t)

  pub create_channels-uses :
      (iid : ℕ) (is_first : Bool) (cs : List String) (s t : Session)
      → create_channels id channels w from iid is_first cs s ≡ next t
      → uses x t ≤ uses x s + one_if (iid == x)
  unfolding create_channels
  create_channels-uses iid false cs s t h = omega (arith, ap (uses x) (create_rest iid cs s t h))
  create_channels-uses iid true [] s t h = ground (arith, h)
  create_channels-uses iid true (c ∷ cs) s t h = elim (Bool-cases (blank c)) [
    | inl b ↦ omega (arith, ap (uses x) (create_rest iid cs s t (ground (arith, h, b))))
    | inr b ↦ elim (Bool-cases (w.creates_channel c)) [
      | inl k ↦
          let (u, e, g) =
            next_then (send_offer id channels w from iid c s)
              (create_channels id channels w from iid false cs) t (ground (arith, h, b, k)) in
          omega (arith, send_offer-uses iid c s u e, ap (uses x) (create_rest iid cs u t g))
      | inr k ↦ ground (arith, h, b, k)
    ]
  ]

  pub receive_offer-uses :
      (to : String) (payload : Bytes) (iid : ℕ) (s t : Session)
      → receive_offer id channels w from to payload iid s ≡ next t
      → uses x t ≤ uses x s + one_if (iid == x)
  unfolding receive_offer count
  receive_offer-uses to payload iid s t h =
      ground (arith, h, count-insert x from (record { iid = iid; channels = [] }) s.peers)

  pub receive_answer-uses :
      (to : String) (payload : Bytes) (s t : Session)
      → receive_answer id channels w from to payload s ≡ next t
      → uses x t ≡ uses x s
  unfolding receive_answer
  receive_answer-uses to payload s t h = ground (arith, h)

  pub peer_disconnected-uses :
      (iid : ℕ) (s t : Session)
      → peer_disconnected id channels w from iid s ≡ some t
      → uses x t ≤ uses x s
  unfolding peer_disconnected close_candidates count
  peer_disconnected-uses iid s t h = ground (arith, h, count-delete x from s.peers)

  pub channel_opened-uses :
      (label : String) (s t : Session)
      → channel_opened id channels w from label s ≡ some t
      → uses x t ≡ uses x s
  unfolding channel_opened
  channel_opened-uses label s t h = elim (Option-cases (lookup from s.peers)) [
    | inl n ↦ ground (arith, h, n)
    | inr (p, e) ↦ ground (arith, h, e, count-insert x from (add_channel label p) s.peers)
  ]

  pub channel_closed-uses :
      (label : String) (p : Peer) (s t : Session)
      → lookup from s.peers ≡ some p
      → close_channel id channels w from label p s ≡ some t
      → uses x t ≡ uses x s
  channel_closed-uses label p s t e h =
      ground (arith, e, h, count-insert x from (remove_channel label p) s.peers)
