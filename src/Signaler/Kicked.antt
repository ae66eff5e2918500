-- ===== src/Signaler/Kicked.antt =====
-- pkg/wrtcsgl/wrtcsgl.go with internal/brokers/redis: the kicks that any signaler publishes, at all
-- signalers that subscribe.
pub mod Everywhere
use weron.Prelude.{String, ◌≡◌, Option, none, some, List, [], ◌∷◌}
use weron.Broker.{Kick, Input, Topic}
use weron.Broker.Redis.{Codec}
use weron.Broker.Redis
use weron.Signaler.Connections.{Connections, kick}

-- What signalers publish: an input of a community, or a kick.
pub data Publication : Type 0 where
  input_of : String → Input → Publication
  kick_of : Kick → Publication

module _ (ij : Codec Input) (kj : Codec Kick) where
  abbrev pub publish : Publication → Option (Topic × String)
  publish (input_of community i) = Redis.publish_input ij i community
  publish (kick_of k) = Redis.publish_kick kj k

  -- What Redis holds of them, where `Marshal` fails on none.
  unfoldable pub redis_entries : List Publication → List (Topic × String)
  redis_entries [] = []
  redis_entries (p ∷ log) = elim (publish p) [
    | none ↦ redis_entries log
    | some m ↦ m ∷ redis_entries log
  ]

  abbrev pub AllPublished : List Publication → Type 0
  AllPublished [] = Unit
  AllPublished (input_of c i ∷ log) = ((s : String) × (ij.marshal i ≡ some s)) × AllPublished log
  AllPublished (kick_of k ∷ log) = ((s : String) × (kj.marshal k ≡ some s)) × AllPublished log

unfoldable pub kicks_of : List Publication → List Kick
kicks_of [] = []
kicks_of (input_of c i ∷ log) = kicks_of log
kicks_of (kick_of k ∷ log) = k ∷ kicks_of log

-- The goroutine of a signaler that receives kicks; `none` is the panic of closing a channel twice.
unfoldable pub receive_kicks : List Kick → Connections → Option Connections
receive_kicks [] s = some s
receive_kicks (k ∷ ks) s =
    let rest = λ (t : Connections). receive_kicks ks t in
    elim (kick k.community s) [ none ↦ none | some t ↦ rest t ]
