-- ===== src/Tests/Naming.antt =====
-- The goroutines of the named adapter at concrete inputs.
use weron.Prelude.{contains, remove, lookup, insert, ◌≡◌, refl, false, List, [], ◌∷◌, ◌++◌}
use weron.Conn.Negotiation.{kick, claimed, Negotiator, is_unnamed, ready, receive}
use weron.Conn.Named.{Link, Named, has_peer, candidate_of, accept}
use weron.Conn.Named.Tables.{renamed, is_distinct}
use weron.Conn.Named.Loop.{
  idle, panicked, taking, free, Hub, announce, hears, finds_none, waits, Reach, here, next,
}
use weron.Conn.Named.Loop.Delivered.{at_rest, claimed_accepted}
use weron.Conn.Named.Loop.Deadlock.{handed, named_channel_deadlocks}
use weron.Conn.Named.Loop.Naming.{broadcasts_in, missed_broadcast, early_name_panics}
use weron.Conn.Named.Loop.Waiting.{Unnamed, names_in, none_accepted}
use weron.Tests.Adapters.{two_names, fresh, alice}
use weron.Tests.Connecting.{link, named_link}

abbrev hub : Negotiator → Hub
hub own = record {
  own = own;
  peers = [];
  position = idle;
  holder = free;
  spawned = [];
  locking = [];
  blocked = [];
  accepted = [];
}

claimed_accepted_example :
    (u : Named) × Reach "id" two_names
      (at_rest (hub alice) [] [])
      (at_rest (hub alice) u (named_link "chat" 2 ∷ []))
unfolding renamed lookup is_distinct contains
claimed_accepted_example =
    claimed_accepted "id" two_names "uuid" "alice" (link "id" 1) (link "chat" 2 ∷ []) (hub alice) []
      [] refl tt refl refl (refl, (refl, tt)) refl refl

-- A peer that has claimed its name.
abbrev known : Named
known = ("alice", ("id", link "id" 1) ∷ []) ∷ []

abbrev taking_ip : Hub
taking_ip = record (hub alice) { peers = known; position = taking (link "ip" 3) }

named_channel_deadlocks_example :
    (u : Hub) × Reach "id" two_names taking_ip u
    × (u.peers ≡ ("alice", ("id", link "id" 1) ∷ ("ip", link "ip" 3) ∷ []) ∷ [])
    × ((t : Hub)
        → Reach "id" two_names u t
        → (t.position ≡ u.position) × (t.peers ≡ u.peers) × (handed t ≡ 0))
unfolding accept candidate_of has_peer insert lookup
named_channel_deadlocks_example =
    named_channel_deadlocks "id" two_names taking_ip (link "ip" 3) refl refl refl refl

missed_broadcast_example :
    (u : Hub) × Reach "id" two_names
      (at_rest (record (hub (fresh 4)) { locking = link "ip" 3 ∷ [] }) known [])
      u
    × (is_unnamed u.own ≡ false)
    × (u.position ≡ idle)
    × (u.holder ≡ free)
    × ((v : Hub) (r : Reach "id" two_names u v)
        → broadcasts_in "id" two_names r ≡ 0
        → (more : List Link) × (v.blocked ≡ more ++ link "ip" 3 ∷ []))
unfolding ready announce lookup
missed_broadcast_example =
    missed_broadcast "id" two_names (record (hub (fresh 4)) { locking = link "ip" 3 ∷ [] }) known []
      (link "ip" 3) (claimed "alice" ∷ []) (link "id" 1 ∷ []) refl refl refl

early_name_panics_example :
    (u : Hub) × Reach "id" two_names (at_rest (hub (fresh 4)) [] []) u × (u.position ≡ panicked)
unfolding ready lookup
early_name_panics_example =
    early_name_panics "id" two_names (hub (fresh 4)) [] [] (link "chat" 2) (claimed "alice" ∷ []) tt
      refl refl refl

-- A peer is handed over and waits, and another one kicks.
abbrev handed_hub : Hub
handed_hub = record (hub (fresh 4)) { spawned = link "chat" 2 ∷ [] }

abbrev blocked_hub : Hub
blocked_hub = record (hub (record { candidates = "bob" ∷ []; id = ""; timestamp = 4 })) {
  blocked = link "chat" 2 ∷ [];
}

abbrev late : Reach "id" two_names handed_hub blocked_hub
unfolding receive remove
late =
    next
      (next (next here (finds_none [] (link "chat" 2) [] refl refl))
        (waits [] (link "chat" 2) [] refl))
      (hears (kick "alice"))

none_accepted_example : Unnamed blocked_hub
unfolding names_in late
none_accepted_example = none_accepted "id" two_names late refl (refl, refl, λ e. cc)
