-- ===== src/Tests/Kicking.antt =====
-- The kicks of two signalers at concrete inputs.
use weron.Prelude.{String, ◌≡◌, false, Option, some, List, [], ◌∷◌, arith}
use weron.Broker.Redis
use weron.Broker.{Kick}
use weron.Broker.Redis.{Codec}
use weron.Signaler.Connections.{Connections}
use weron.Signaler.Kicked.{Publication, input_of, kick_of}

abbrev read_kick : String → Option Kick
read_kick s = some (record { community = s })

abbrev write_kick : Kick → Option String
write_kick k = some k.community

read_kick-write_kick : (k : Kick) (s : String) → write_kick k ≡ some s → read_kick s ≡ some k
read_kick-write_kick k s e = ground (arith, e)

abbrev kicks_format : Codec Kick
kicks_format = record {
  marshal = write_kick;
  unmarshal = read_kick;
  unmarshal-marshal = read_kick-write_kick;
}

abbrev published : List Publication
published =
    input_of "b" (record { raddr = "y"; message_type = 1; p = [] })
    ∷ kick_of (record { community = "a" })
    ∷ []

abbrev table : Connections
table =
    ("a", ("x", record { is_closed = false }) ∷ [])
    ∷ ("b", ("y", record { is_closed = false }) ∷ [])
    ∷ []
