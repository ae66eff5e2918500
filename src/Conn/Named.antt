-- ===== src/Conn/Named.antt =====
-- pkg/wrtcconn/adapter_named.go: the table of peers under their names, and the peers that the named
-- adapter sends on `namedPeers`. A map is an association list, gone through in its order.
pub mod Tables
pub mod Delivery
pub mod Loop
use weron.Prelude.{
  if◌then◌else◌, lookup, insert, delete, ℕ, String, Bool, false, ◌||◌, none, some, List, [], ◌∷◌,
  str_eq,
}

-- `Peer`: a data channel to a peer; the number stands for the connection.
pub record Link : Type 0 where
  pub peer_id : String
  pub channel_id : String
  pub conn : ℕ

abbrev pub Links : Type 0
Links = List (String × Link)

abbrev pub Named : Type 0
Named = List (String × Links)

abbrev pub links_at : String → Named → Links
links_at rid peers = elim (lookup rid peers) [ none ↦ [] | some p ↦ p ]

unfoldable pub has_peer : String → Links → Bool
has_peer peer_id [] = false
has_peer peer_id ((channel, c) ∷ p) = str_eq c.peer_id peer_id || has_peer peer_id p

-- The loop that looks for the name of a peer; without one, it is called by its ID.
unfoldable pub candidate_of : String → Named → String → String
candidate_of peer_id [] rid = rid
candidate_of peer_id ((candidate, p) ∷ peers) rid =
    candidate_of peer_id peers (if has_peer peer_id p then candidate else rid)

-- The loop over the channels of a peer that has claimed the name `rid`.
unfoldable pub copy_links : Links → Links → Links
copy_links [] target = target
copy_links ((key, value) ∷ p) target = copy_links p (insert key value target)

module _ (id_channel : String) where
  -- A data channel that the adapter below accepts: the table, and what goes to `namedPeers`.
  unfoldable pub accept : Link → Named → Named × List Link
  unfolding candidate_of
  accept peer peers =
      let rid = candidate_of peer.peer_id peers peer.peer_id in
      (
        insert rid (insert peer.channel_id peer (links_at rid peers)) peers,
        if str_eq rid peer.peer_id || str_eq peer.channel_id id_channel
            then []
            else record peer { peer_id = rid } ∷ [],
      )

  -- The channels that are handed on, in the order of the list, where Go goes through a map in any order.
  unfoldable pub hand_on : String → Links → List Link
  hand_on rid [] = []
  hand_on rid ((key, value) ∷ p) =
      let rest = hand_on rid p in
      if str_eq value.channel_id id_channel then rest else record value { peer_id = rid } ∷ rest

  -- The message `claimed`, from the peer `peer_id`.
  unfoldable pub claim : String → String → Named → Named × List Link
  unfolding copy_links hand_on
  claim peer_id rid peers =
      let p = links_at peer_id peers in
      (delete peer_id (insert rid (copy_links p (links_at rid peers)) peers), hand_on rid p)

  -- The deferred function when the ID channel of a peer ends: its guard is the wrong way round.
  unfoldable pub end_of_peer : String → Named → Named
  end_of_peer rid peers = elim (lookup rid peers) [ none ↦ delete rid peers | some p ↦ peers ]
