-- ===== src/Ip/Wait.antt =====
-- pkg/wrtcip/wrtcip.go: `Open`, and the loop of `Wait` with its goroutines, as a sequence of events.
pub mod Entries
pub mod Panics
use weron.Prelude.{
  if◌then◌else◌, Result, ok, ◌>>=◌, guard, require, ℕ, String, Bool, Option, none, some, List, [],
  ◌∷◌, ◌++◌,
}
use weron.Encryption.{Bytes}
use weron.Ip.Names.{Prefix, names}
use weron.Ip.Routing.{Peer, Cidr, drop_peers}
use weron.Ip.Device.{WaitError, Device, signaler_connected, join_peer, route}

-- The names that are tried: the one of the networks as they are given, or those that are offered.
pub data Candidates : Type 0 where
  static_name : List String → Candidates
  offered_names : List (List (ℕ × ℕ)) → Candidates

-- What ends `Open`, in the order of its steps.
pub data OpenError : Type 0 where
  device_failed cidr_failed prefix_failed adapter_failed mtu_failed : OpenError

-- The calls of the operating system and of the adapter below.
pub record System : Type 0 where
  pub creates_tun : Bool
  pub opens_adapter : Bool
  pub mtu : Option ℕ

-- The configuration that `Open` reads.
pub record AdapterConfig : Type 0 where
  pub cidrs : List String
  pub max_retries : ℕ
  pub is_static : Bool

-- A loop that returns the first error.
unfoldable pub parse_each : {A : Type 0} → (String → Option A) → List String → Option (List A)
parse_each parse [] = some []
parse_each parse (x ∷ xs) =
    let rest = parse_each parse xs in
    elim (parse x) [ none ↦ none | some a ↦ elim rest [ none ↦ none | some as' ↦ some (a ∷ as') ] ]

module _ (parse_cidr : String → Option Cidr) (parse_prefix : String → Option Prefix) where
  unfoldable pub candidates : AdapterConfig → List Prefix → Candidates
  candidates config ps =
      if config.is_static
      then static_name config.cidrs
      else offered_names (names config.max_retries ps)

  -- The names, and the MTU.
  unfoldable pub open_adapter : System → AdapterConfig → Result OpenError (Candidates × ℕ)
  open_adapter sys config = do
    _ ← guard sys.creates_tun device_failed
    _ ← require (parse_each parse_cidr config.cidrs) cidr_failed
    ps ← require (parse_each parse_prefix config.cidrs) prefix_failed
    _ ← guard sys.opens_adapter adapter_failed
    mtu ← require sys.mtu mtu_failed
    ok (candidates config ps, mtu)

-- `Close`: the device first, and the adapter below only if that succeeds.
pub data CloseError : Type 0 where
  tun_failed adapter_close_failed : CloseError

unfoldable pub close : Bool → Bool → Option CloseError
close closes_tun closes_adapter =
    if closes_tun
    then if closes_adapter then none else some adapter_close_failed
    else some tun_failed

-- What happens to `Wait`: the context ends, by a deadline or not; a name, and what the device then
-- does; an error of the adapter below; a peer and its connection; the end of a connection; a
-- packet of the device, and the connections to which it can be written; a packet of a peer, and
-- whether the device takes it.
pub data Event : Type 0 where
  got_id : String → Device → Event
  cancelled : Bool → Event
  adapter_ended : Event
  accepted : String → ℕ → Event
  ended : String → Event
  packet_read : Bytes → (ℕ → Bool) → Event
  peer_read : Bytes → Bool → Event

-- The table, the addresses set, what was written to the peers and to the device, and the callbacks.
pub record Waiting : Type 0 where
  pub peers : List (String × Peer)
  pub addresses : List String
  pub sent : List (ℕ × Bytes)
  pub tun : List Bytes
  pub connects : List String
  pub disconnects : List String

-- Whether `Wait` goes on; it returns the error of a context that ended by a deadline, and else nil.
-- `panics` is the end of the process.
pub data Turn : Type 0 where
  goes_on : Waiting → Turn
  fails : WaitError → Turn
  names_claimed panics : Turn
  returns : Bool → Turn

-- The writes of one packet; one that fails is skipped.
unfoldable pub write_all : Bytes → (ℕ → Bool) → List ℕ → List (ℕ × Bytes)
write_all buf writes [] = []
write_all buf writes (conn ∷ conns) =
    let rest = write_all buf writes conns in if writes conn then (conn, buf) ∷ rest else rest

module _ (parse_cidr : String → Option Cidr) (unmarshal : String → Option (List String))
    (decode_v4 decode_v6 : Bytes → Option Bytes) where
  -- The end of the goroutine of a peer, whose name is a list.
  unfoldable pub leave : String → List String → Waiting → Waiting
  leave peer_id ips s = record s {
    peers = drop_peers parse_cidr ips s.peers;
    disconnects = s.disconnects ++ peer_id ∷ [];
  }

  -- The goroutine of a peer up to its loop: if no address of the name is valid, it ends.
  unfoldable pub join : String → ℕ → Waiting → Waiting
  unfolding leave
  join peer_id conn s =
      let (peers, reads) = join_peer parse_cidr unmarshal conn peer_id s.peers in
      let t = record s { peers = peers; connects = s.connects ++ peer_id ∷ [] } in
      elim (unmarshal peer_id) [ none ↦ t | some ips ↦ if reads then t else leave peer_id ips t ]

  unfoldable pub step : Waiting → Event → Turn
  unfolding join leave write_all
  step s (got_id id d) =
      let (set, e) = signaler_connected parse_cidr unmarshal d id in
      elim e [ none ↦ goes_on (record s { addresses = s.addresses ++ set }) | some x ↦ fails x ]
  step s (cancelled by_deadline) = returns by_deadline
  step s adapter_ended = names_claimed
  step s (accepted peer_id conn) = goes_on (join peer_id conn s)
  step s (ended peer_id) = elim (unmarshal peer_id) [
    | none ↦ goes_on s
    | some ips ↦ goes_on (leave peer_id ips s)
  ]
  step s (packet_read buf writes) = elim (route decode_v4 decode_v6 buf s.peers) [
    | none ↦ panics
    | some conns ↦ goes_on (record s { sent = s.sent ++ write_all buf writes conns })
  ]
  step s (peer_read buf takes) =
      if takes then goes_on (record s { tun = s.tun ++ buf ∷ [] }) else goes_on s

  unfoldable pub run : Waiting → List Event → Turn
  run s [] = goes_on s
  run s (e ∷ es) =
      let rest = λ (t : Waiting). run t es in
      elim (step s e) [
        | goes_on t ↦ rest t
        | fails x ↦ fails x
        | names_claimed ↦ names_claimed
        | panics ↦ panics
        | returns d ↦ returns d
      ]
