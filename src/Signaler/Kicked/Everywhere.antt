-- ===== src/Signaler/Kicked/Everywhere.antt =====
-- What the kicks of all signalers do at each of them.
use Prim.Native.Char.{code}
use weron.Prelude.{contains, ℕ, String, ◌≡◌, false, List, [], ◌∷◌, map}
use weron.Broker.{Kick}
use weron.Signaler.Connections.{Connections, in_community}
use weron.Signaler.Connections.Kicks.{AllOpen}
use weron.Broker.Redis

abbrev first_code : String → ℕ
first_code String.[] = 0
first_code (String.◌∷◌ c s) = code c

abbrev communities : List Kick → List String
communities = map (λ k. k.community)

-- No community is kicked twice.
abbrev pub OncePerCommunity : List Kick → Type 0
OncePerCommunity [] = Unit
OncePerCommunity (k ∷ ks) = (contains k.community (communities ks) ≡ false) × OncePerCommunity ks

-- All connections of the communities that are kicked are open.
abbrev pub KickedOpen : List Kick → Connections → Type 0
KickedOpen [] s = Unit
KickedOpen (k ∷ ks) s = AllOpen (in_community k.community s) × KickedOpen ks s
