-- ===== src/Ip/Wait/Panics.antt =====
-- pkg/wrtcip/wrtcip.go: what `getBroadcastAddr` does to the process when a peer has an IPv4 address that
-- is mapped into IPv6.
use weron.Prelude.{
  Option-cases, length, str_eq_refl, lookup, insert, lookup-insert, ℕ, String, ◌≡◌, ◌≢◌, inl, inr,
  Bool, true, false, Option, none, some, List, [], ◌∷◌, arith,
}
use weron.Encryption.{Bytes}
use weron.Ip.Routing.{to4, ip_equal, get_broadcast_addr, Peer, is_recipient, Cidr, add_peers}
use weron.Ip.Device.Broadcast.{forward_packet-none, entry}
use weron.Ip.Device.{is_any_valid, join_peer, destination, route}
use weron.Ip.Wait.{Event, accepted, packet_read, Waiting, panics, join, step, run}

-- No broadcast address can be computed for a network with a mask of 16 bytes.
is_recipient_panics :
    (dst : Bytes) (p : Peer)
    → ip_equal dst p.ip ≡ false
    → length dst ≡ 4
    → length p.ip ≡ 16
    → to4 p.ip ≢ none
    → to4 p.net_mask ≡ none
    → is_recipient dst p ≡ none
unfolding is_recipient get_broadcast_addr
is_recipient_panics dst p e l k v m = elim (Option-cases (to4 p.ip)) [
  | inl n ↦ absurd (v n)
  | inr (ip4, f) ↦ elim (Option-cases (to4 p.net_ip)) [
    | inl n ↦ ground (arith, e, l, k, f, n)
    | inr (net4, n) ↦ ground (arith, e, l, k, f, n, m)
  ]
]

module _ (parse_cidr : String → Option Cidr) (unmarshal : String → Option (List String))
    (decode_v4 decode_v6 : Bytes → Option Bytes) where
  join_peer_one :
      (conn : ℕ) (peer_id raw : String) (c : Cidr) (peers : List (String × Peer))
      → unmarshal peer_id ≡ some (raw ∷ [])
      → parse_cidr raw ≡ some c
      → join_peer parse_cidr unmarshal conn peer_id peers
        ≡ (insert c.ip_string (entry conn c) peers, true)
  unfolding join_peer add_peers is_any_valid
  join_peer_one conn peer_id raw c peers u r = ground (arith, u, r)

  join_one :
      (conn : ℕ) (peer_id raw : String) (c : Cidr) (s : Waiting)
      → unmarshal peer_id ≡ some (raw ∷ [])
      → parse_cidr raw ≡ some c
      → (join parse_cidr unmarshal decode_v4 decode_v6 peer_id conn s).peers
        ≡ insert c.ip_string (entry conn c) s.peers
  unfolding join
  join_one conn peer_id raw c s u r =
      ground (arith, u, join_peer_one conn peer_id raw c s.peers u r)

  -- A peer ends the process of the others, whatever happened there before: if it joins under the name
  -- of one address that is an IPv4 address of 16 bytes and whose network has a mask that is none of 4
  -- bytes, as `::ffff:10.0.0.1/120` has, the next packet of the device to any other IPv4 address makes
  -- `Wait` panic.
  pub next_packet_panics :
      (raw peer_id : String) (c : Cidr) (conn : ℕ) (buf dst : Bytes) (writes : ℕ → Bool)
      (es : List Event) (s : Waiting)
      → unmarshal peer_id ≡ some (raw ∷ [])
      → parse_cidr raw ≡ some c
      → length c.ip ≡ 16
      → to4 c.ip ≢ none
      → to4 c.net_mask ≡ none
      → destination decode_v4 decode_v6 buf ≡ some dst
      → length dst ≡ 4
      → ip_equal dst c.ip ≡ false
      → run parse_cidr unmarshal decode_v4 decode_v6 s
          (accepted peer_id conn ∷ packet_read buf writes ∷ es)
        ≡ panics
  unfolding run step route
  next_packet_panics raw peer_id c conn buf dst writes es s u r k v m d l e =
      let t = join parse_cidr unmarshal decode_v4 decode_v6 peer_id conn s in
      let there : lookup c.ip_string t.peers ≡ some (entry conn c) = ground (
        arith,
        join_one conn peer_id raw c s u r,
        lookup-insert c.ip_string c.ip_string (entry conn c) s.peers,
        str_eq_refl c.ip_string,
      ) in
      let panicking = is_recipient_panics dst (entry conn c) e l k v m in
      let none_sent = forward_packet-none dst c.ip_string (entry conn c) t.peers there panicking in
      ground (arith, d, none_sent)
