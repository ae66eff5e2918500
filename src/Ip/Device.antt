-- ===== src/Ip/Device.antt =====
-- pkg/wrtcip/wrtcip.go: what the TUN device is set to, the peers that join, and where a packet goes.
pub mod Broadcast
pub mod Reaching
use weron.Prelude.{
  if◌then◌else◌, Bool-cases, contains, ℕ, String, ◌≡◌, ap, inl, inr, Bool, true, false, ◌&&◌,
  Option, none, some, List, [], ◌∷◌, arith, eq_iff, str_eq,
}
use weron.Encryption.{Bytes}
use weron.Ip.Routing.{to4, Peer, forward_packet, Cidr, add_peers}

-- What can end `Wait` when the adapter has a name.
pub data WaitError : Type 0 where
  bad_name address_failed link_failed : WaitError

-- netns_linux.go and the other files for the devices: whether a call succeeds; `is_darwin` says that
-- the system has no IPv4 devices.
pub record Device : Type 0 where
  pub is_darwin : Bool
  pub sets_address : String → Bool
  pub sets_link_up : Bool

-- The addresses set, and the error that ends `Wait`, if there is one.
abbrev pub Assigned : Type 0
Assigned = List String × Option WaitError

abbrev pub is_v4 : Bytes → Bool
is_v4 ip = elim (to4 ip) [ none ↦ false | some _ ↦ true ]

module _ (parse_cidr : String → Option Cidr) (unmarshal : String → Option (List String)) where
  -- The loop over the addresses of the name.
  unfoldable pub set_addresses : Device → List String → Assigned
  set_addresses d [] = ([], if d.sets_link_up then none else some link_failed)
  set_addresses d (raw_ip ∷ ips) =
      let (set, e) = set_addresses d ips in
      elim (parse_cidr raw_ip) [
        | none ↦ (set, e)
        | some c ↦
            if d.is_darwin && is_v4 c.ip
            then (set, e)
            else if d.sets_address raw_ip
            then (raw_ip ∷ set, e)
            else ([], some address_failed)
      ]

  unfoldable pub signaler_connected : Device → String → Assigned
  unfolding set_addresses
  signaler_connected d id = elim (unmarshal id) [
    | none ↦ ([], some bad_name)
    | some ips ↦ set_addresses d ips
  ]

  -- `valid`.
  unfoldable pub is_any_valid : List String → Bool
  is_any_valid [] = false
  is_any_valid (raw_ip ∷ ips) = elim (parse_cidr raw_ip) [ none ↦ is_any_valid ips | some c ↦ true ]

  -- A peer of `Accept`: the table, and whether its packets are read.
  unfoldable pub join_peer : ℕ → String → List (String × Peer) → List (String × Peer) × Bool
  unfolding is_any_valid
  join_peer conn peer_id peers = elim (unmarshal peer_id) [
    | none ↦ (peers, false)
    | some ips ↦ (add_peers parse_cidr conn ips peers, is_any_valid ips)
  ]

  set_addresses-contains :
      (d : Device) (ips : List String) (raw : String) (c : Cidr)
      → contains raw ips ≡ true
      → parse_cidr raw ≡ some c
      → (d.is_darwin && is_v4 c.ip) ≡ false
      → (set_addresses d ips).1 ≡ none
      → contains raw (set_addresses d ips).0 ≡ true
  unfolding set_addresses contains
  set_addresses-contains d [] raw c h r v e = cc
  set_addresses-contains d (x ∷ ips) raw c h r v e = elim (Bool-cases (str_eq x raw)) [
    | inl t ↦ ground (arith, r, v, e, t, ap parse_cidr ((eq_iff x raw).0 t))
    | inr t ↦ ground (arith, h, v, e, t, set_addresses-contains d ips raw c)
  ]

  -- An adapter that goes on after it has got its name has set every address of the name that is valid,
  -- but for IPv4 addresses on a system that has none.
  pub signaler_connected-contains :
      (d : Device) (id raw : String) (ips : List String) (c : Cidr)
      → unmarshal id ≡ some ips
      → contains raw ips ≡ true
      → parse_cidr raw ≡ some c
      → (d.is_darwin && is_v4 c.ip) ≡ false
      → (signaler_connected d id).1 ≡ none
      → contains raw (signaler_connected d id).0 ≡ true
  unfolding signaler_connected
  signaler_connected-contains d id raw ips c u h r v e =
      ground (arith, u, e, set_addresses-contains d ips raw c h r v)

-- The destination of a packet, which is read as IPv4 first and then as IPv6; what is neither is dropped.
module _ (decode_v4 decode_v6 : Bytes → Option Bytes) where
  unfoldable pub destination : Bytes → Option Bytes
  destination buf = elim (decode_v4 buf) [ some dst ↦ some dst | none ↦ decode_v6 buf ]

  -- `none` is a panic.
  unfoldable pub route : Bytes → List (String × Peer) → Option (List ℕ)
  unfolding destination
  route buf peers = elim (destination buf) [ none ↦ some [] | some dst ↦ forward_packet dst peers ]
