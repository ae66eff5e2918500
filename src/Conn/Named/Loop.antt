-- ===== src/Conn/Named/Loop.antt =====
-- pkg/wrtcconn/adapter_named.go: the goroutines of `Open` as the steps of one system: the loop, one
-- goroutine for each ID channel, and one for each peer that is handed over by `namedPeers`. What a
-- goroutine does while it holds `peersLock` is one step up to the next send, since no other reads
-- the table then.
pub mod Deadlock
pub mod Delivered
pub mod Naming
pub mod Waiting
use weron.Prelude.{
  lookup, String, ◌≡◌, Bool, true, false, ◌||◌, Option, none, some, List, [], ◌∷◌, ◌++◌, str_eq,
}
use weron.Conn.Negotiation.{
  Message, Negotiator, NamedAdapterConfig, is_unnamed, connected, ready, receive,
}
use weron.Conn.Named.{Link, Named, accept, claim, end_of_peer}

-- Where the loop stands. `naming` is the send of the name, `announcing` the wait for the lock behind
-- it, `taking` the wait for the lock with an accepted data channel, and `sending` the send on
-- `namedPeers`, which is not buffered and which only the loop itself receives from.
pub data Position : Type 0 where
  idle naming announcing returned panicked : Position
  taking sending : Link → Position

-- Who holds `peersLock`; a goroutine of an ID channel holds it until it has sent the rest.
pub data Holder : Type 0 where
  free by_loop : Holder
  by_claim : List Link → Holder

-- What the goroutines share. A peer that is handed over is `spawned` until its goroutine reads the
-- ID; without an ID it is `locking` until it waits for the condition, `blocked`, and at the end it
-- is sent on `acceptedPeers`.
pub record Hub : Type 0 where
  pub own : Negotiator
  pub peers : Named
  pub position : Position
  pub holder : Holder
  pub spawned : List Link
  pub locking : List Link
  pub blocked : List Link
  pub accepted : List Link

module _ (id_channel : String) where
  -- The ID channels to which the name is written; `none` if a peer has none, whose field is read.
  unfoldable pub announce : Named → Option (List Link)
  announce [] = some []
  announce ((rid, p) ∷ peers) = elim (lookup id_channel p) [
    | none ↦ none
    | some l ↦ elim (announce peers) [ none ↦ none | some ls ↦ some (l ∷ ls) ]
  ]

  abbrev pub is_of : String → Option Link → Bool
  is_of peer_id none = false
  is_of peer_id (some l) = str_eq l.peer_id peer_id

  -- The ID channel of the peer stands in the table, so a goroutine reads from it.
  unfoldable pub is_served : String → Named → Bool
  is_served peer_id [] = false
  is_served peer_id ((rid, p) ∷ peers) =
      is_of peer_id (lookup id_channel p) || is_served peer_id peers

  module _ (config : NamedAdapterConfig) where
    pub data Step (s : Hub) : Hub → Type 0 where
      -- The loop: the signaler assigns an ID, or the timer is up.
      assigns : s.position ≡ idle → Step s (record s { own = connected config s.own })
      refuses :
          s.position ≡ idle
          → (ready config s.own).1 ≡ none
          → Step s (record s { own = (ready config s.own).0; position = returned })
      names :
          (ms : List Message)
          → s.position ≡ idle
          → (ready config s.own).1 ≡ some ms
          → Step s (record s { own = (ready config s.own).0; position = naming })
      broadcasts :
          s.position ≡ naming
          → Step s
              (record s { accepted = s.accepted ++ s.blocked; blocked = []; position = announcing })
      announces :
          (ls : List Link)
          → s.position ≡ announcing
          → s.holder ≡ free
          → announce s.peers ≡ some ls
          → Step s (record s { position = idle })
      panics :
          s.position ≡ announcing
          → s.holder ≡ free
          → announce s.peers ≡ none
          → Step s (record s { position = panicked })
      -- The loop: a data channel of the adapter below, and a peer from `namedPeers`.
      receives : (l : Link) → s.position ≡ idle → Step s (record s { position = taking l })
      takes :
          (l : Link)
          → s.position ≡ taking l
          → s.holder ≡ free
          → (accept id_channel l s.peers).1 ≡ []
          → Step s (record s { peers = (accept id_channel l s.peers).0; position = idle })
      sends :
          (l x : Link)
          → s.position ≡ taking l
          → s.holder ≡ free
          → (accept id_channel l s.peers).1 ≡ x ∷ []
          → Step s (record s {
            peers = (accept id_channel l s.peers).0;
            position = sending x;
            holder = by_loop;
          })
      hands :
          (x : Link) (xs : List Link)
          → s.position ≡ idle
          → s.holder ≡ by_claim (x ∷ xs)
          → Step s (record s { holder = by_claim xs; spawned = x ∷ s.spawned })
      -- The goroutine of an ID channel: a message, the message `claimed`, and its end.
      hears : (m : Message) → Step s (record s { own = (receive config s.own m).0 })
      claims :
          (peer_id rid : String)
          → is_served peer_id s.peers ≡ true
          → s.holder ≡ free
          → Step s (record s {
            peers = (claim id_channel peer_id rid s.peers).0;
            holder = by_claim (claim id_channel peer_id rid s.peers).1;
          })
      releases : s.holder ≡ by_claim [] → Step s (record s { holder = free })
      ends :
          (rid : String)
          → s.holder ≡ free
          → Step s (record s { peers = end_of_peer id_channel rid s.peers })
      -- The goroutine of a peer that is handed over.
      finds_name :
          (before : List Link) (l : Link) (after : List Link)
          → s.spawned ≡ before ++ l ∷ after
          → is_unnamed s.own ≡ false
          → Step s (record s { spawned = before ++ after; accepted = s.accepted ++ l ∷ [] })
      finds_none :
          (before : List Link) (l : Link) (after : List Link)
          → s.spawned ≡ before ++ l ∷ after
          → is_unnamed s.own ≡ true
          → Step s (record s { spawned = before ++ after; locking = l ∷ s.locking })
      waits :
          (before : List Link) (l : Link) (after : List Link)
          → s.locking ≡ before ++ l ∷ after
          → Step s (record s { locking = before ++ after; blocked = l ∷ s.blocked })

    pub data Reach (s : Hub) : Hub → Type 0 where
      here : Reach s s
      next : {t u : Hub} → Reach s t → Step t u → Reach s u
